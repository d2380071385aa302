-- ===== src/Handlers/Tests.antt =====
-- Runs of the handlers over a cluster that has one FRS, on the port 2222, and an SFTP server with one
-- directory. The state of both is a number that nothing changes.
use kasten_frs_web.Base.{
  ℕ, ◌≡◌, refl, ◌≢◌, false, none, some, List, [], ◌∷◌, if◌then◌else◌, ok, err, ◌==◌, text_beq, Str,
  str, lookup, Option, ◌++◌, All, true, ok-injective, ◌≤◌, ◌↔◌, ◌⊎◌,
}
use kasten_frs_web.Base.Int.{pos}
use kasten_frs_web.Handlers.Archive.{is_escape, entry_name_of, Walk, walk_one, walk_rec}
use kasten_frs_web.Handlers.Archive.Cut.{walk_to}
use kasten_frs_web.Handlers.Archive.Escapes.{is_escape-never}
use kasten_frs_web.Handlers.Archive.Fuel.{Levels, walk_rec-ends}
use kasten_frs_web.Handlers.Archive.Names.{NamesInside, walk_rec-NamesInside}
use kasten_frs_web.Handlers.Download.{content_disposition_filename}
use kasten_frs_web.Handlers.Download.Headers.{IsPrintable, content_disposition_filename-IsPrintable}
use kasten_frs_web.Handlers.Server.{Server, State}
use kasten_frs_web.Handlers.Sessions.{handle_connect, handle_session_delete}
use kasten_frs_web.Handlers.Sessions.Effects.{
  DeleteEffect, handle_session_delete-effects, ConnectEffect, handle_connect-effects,
}
use kasten_frs_web.Handlers.Watch.{
  WatchState, Watches, watch_get, stamped, watch_outcome, run_sweeper,
}
use kasten_frs_web.Handlers.Watch.Eviction.{IsLimit, StaysFresh, run_sweeper_get}
use kasten_frs_web.Handlers.Wizard.{
  initial_watch, handle_wizard_create, finish_watch, handle_wizard_cancel,
}
use kasten_frs_web.Handlers.Wizard.Creation.{
  IsComplete, CreateEffect, handle_wizard_create-effects, handle_wizard_cancel-revived,
}
use kasten_frs_web.Http.{Request, form_value}
use kasten_frs_web.K8s.{ref_eq, FrsRef, FrsView, empty_view}
use kasten_frs_web.SftpClient.{FileInfo}
use kasten_frs_web.SftpClient.Listing.{plain, has_bit, entry_is_dir}
use kasten_frs_web.SftpClient.Pool.{key_eq, new_pool}
use kasten_frs_web.Std.Paths.{resolve, resolve_all, clean}
use kasten_frs_web.Std.Strings.{split, join, split_once, has_prefix}

abbrev pub frs_a : FrsRef
frs_a = record { namespace = str "prod"; name = str "frs-a" }

abbrev pub frs_view : FrsView
frs_view = record empty_view { ref = frs_a; port = pos 2222; state = str "Ready" }

abbrev info_of : Str → ℕ → FileInfo
info_of name mode = record { name = name; size = pos 0; mode = mode; mod_time = 0 }

abbrev pub helper : Server ℕ
helper = record {
  auth = record {
    username = str "admin";
    password = str "secret";
    sessions = record { secret = []; ttl = pos 0 };
    cookie_name = str "sid";
  };
  frs = record {
    list_all = λ ns w. (ok (frs_view ∷ []), w);
    get_frs = λ ref w. (if ref == frs_a then ok frs_view else err (str "not found"), w);
    create_frs = λ ns spec w. (ok frs_view, w);
    delete_frs = λ ns name w. (none, w);
    lookup_source = λ v w. (v, w);
    list_vms_of = λ names w. (ok [], w);
    list_namespaces = λ w. (ok (str "prod" ∷ []), w);
    list_points = λ ns name w. (ok [], w);
    get_details = λ ns name w. (err (str "down"), w);
  };
  sftp = record {
    dial = λ addr sig w. (ok 1, w);
    list_dir = λ h p w. (ok (plain (info_of (str "..") 0) ∷ []), w);
    stat = λ h p w. (ok (info_of p 0), w);
    open_file = λ h p w. (ok 7, w);
    copy = λ reader w. ((str "data", none), w);
  };
  frs_port = pos 2222;
  pub_key_pem = str "ssh-ed25519 AAAA";
  ns_whitelist = [];
  frs_timeout = pos 0;
  mac = λ key text. text;
  query_escape = λ s. s;
  path_escape = λ s. s;
  tar_header = λ info. none;
  write_header = λ name info w. (none, w);
}

abbrev pub fresh_state : State ℕ
fresh_state = record { pool = new_pool (pos 100); watches = []; watchers = []; world = 0 }

abbrev with_form : List (Str × Str) → Request
with_form form = record {
  method = str "POST";
  path = str "/wizard/create";
  headers = (str "HX-Request", str "true") ∷ [];
  cookies = [];
  query = [];
  form = form;
  form_error = false;
}

abbrev filled : Request
filled = with_form (
    (str "vmNs", str "prod")
    ∷ (str "vmName", str "vm")
    ∷ (str "rpName", str "rp")
    ∷ (str "pvcNames", str "disk")
    ∷ [])

abbrev cancelling : Request
cancelling = with_form ((str "frs", str "prod/frs-a") ∷ [])

abbrev old_watch : WatchState
old_watch = record (initial_watch frs_view) { created_at = some 0 }

abbrev one_watch : Watches
one_watch = (frs_a, old_watch) ∷ []

handle_session_delete-effects_example :
    DeleteEffect frs_a fresh_state none (handle_session_delete helper frs_a fresh_state)
unfolding new_pool
handle_session_delete-effects_example = handle_session_delete-effects helper frs_a fresh_state tt

handle_connect-effects_example :
    ConnectEffect helper frs_a 5 filled fresh_state
      (helper.frs.get_frs frs_a 0).0
      (handle_connect helper frs_a 5 filled fresh_state)
handle_connect-effects_example = handle_connect-effects helper frs_a 5 filled fresh_state

abbrev no_name : Str
no_name = []

abbrev no_pvcs : List Str
no_pvcs = []

abbrev no_error : Option Str
no_error = none

handle_wizard_create-effects_example :
    ((¬ IsComplete helper filled)
      × (400 ≤ (handle_wizard_create helper 9 filled fresh_state).0.status)
      × ((handle_wizard_create helper 9 filled fresh_state).1 ≡ fresh_state))
    ⊎ (IsComplete helper filled
        × CreateEffect helper 9 fresh_state
            (ok frs_view, 0)
            (handle_wizard_create helper 9 filled fresh_state))
handle_wizard_create-effects_example = handle_wizard_create-effects helper 9 filled fresh_state

handle_wizard_cancel-revived_example :
    let t = (handle_wizard_cancel helper cancelling fresh_state).1 in
    (watch_get frs_a t.watches ≡ none)
    × (watch_get frs_a (finish_watch helper frs_a frs_view none 9 t).watches
        ≡ some (stamped 9 (watch_outcome frs_view none)))
unfolding form_value lookup text_beq split_once
handle_wizard_cancel-revived_example =
    handle_wizard_cancel-revived helper cancelling (str "prod") (str "frs-a") fresh_state frs_view
      none 9 refl refl refl

is_escape-never_example : is_escape (str "../../etc/passwd") ≡ false
is_escape-never_example = is_escape-never (str "../../etc/passwd")

abbrev begun : Walk ℕ
begun = record { written = []; failed = none; world = 0 }

abbrev ended : Walk ℕ
ended = record {
  written =
      record { name = str "/etc"; info = info_of (str "/../etc") 0; content = str "data" } ∷ [];
  failed = none;
  world = 0;
}

walked : walk_rec helper 1 1 (str "/../etc") (str "/../etc") false begun ≡ some ended
unfolding walk_rec walk_one is_escape entry_name_of clean split resolve_all resolve join text_beq
    has_prefix
walked = refl

walk_rec-NamesInside_example :
    (u : Walk ℕ) × (walk_to helper 1 1 (str "/../etc") (str "/../etc") false begun ≡ some u)
    × NamesInside helper 1 u
    × ((walk_rec helper 1 1 (str "/../etc") (str "/../etc") false begun ≡ none)
        ⊎ (walk_rec helper 1 1 (str "/../etc") (str "/../etc") false begun ≡ some u))
walk_rec-NamesInside_example =
    walk_rec-NamesInside helper 1 1 (str "/../etc") (str "/../etc") false begun tt

content_disposition_filename-IsPrintable_example :
    (quoted : Str) × (quoted ≢ [])
    × All IsPrintable quoted
    × (content_disposition_filename (λ s. s) (str "a b.txt")
        ≡ (str "attachment; filename=" ++ (34 ∷ []))
          ++ (quoted ++ ((34 ∷ str "; filename*=UTF-8''") ++ str "a b.txt")))
content_disposition_filename-IsPrintable_example =
    content_disposition_filename-IsPrintable (λ s. s) (str "a b.txt")

flat_Levels : Levels helper 1 1 (str "/data") true
unfolding Levels entry_is_dir has_bit
flat_Levels w es e = rw (← ok-injective e) (tt, tt)

walk_rec-ends_example :
    (u : Walk ℕ) × (walk_rec helper 1 2 (str "/data") (str "/data") true begun ≡ some u)
walk_rec-ends_example = walk_rec-ends helper 1 1 (str "/data") (str "/data") true begun flat_Levels

abbrev two_ticks : List ℕ
two_ticks = 5 ∷ 3600000000001 ∷ []

run_sweeper_get_example :
    (limit : ℕ) × IsLimit (pos 3600000000000) limit
    × ((watch_get frs_a (run_sweeper (pos 3600000000000) two_ticks one_watch) ≡ some old_watch)
        ↔ ((watch_get frs_a one_watch ≡ some old_watch) × StaysFresh limit two_ticks old_watch))
run_sweeper_get_example =
    run_sweeper_get (pos 3600000000000) two_ticks frs_a one_watch old_watch (tt, tt)
