-- ===== src/Handlers/Serving/Tests.antt =====
-- A server to which the operator connects by a session that was given out two seconds before.
use kasten_frs_web.Base.{
  text_eq, ℕ, ◌≡◌, refl, sym, none, some, [], ◌∷◌, text_beq, Str, str, lookup, lookup_absent, ap,
  ◌∙◌, ◌≢◌, arith,
}
use kasten_frs_web.Auth.Tests.{toy_mac, operator}
use kasten_frs_web.Base.Int.{pos}
use kasten_frs_web.Handlers.Routes.Tests.{connecting, connect_path, connecting_arrives}
use kasten_frs_web.Handlers.Server.{
  Reply, Page, Server, State, user_id_from_cookie, browse_url, session_key, pool_get,
}
use kasten_frs_web.Handlers.Serving.{
  Reach, here, next, Moment, FileServer, handle, serve_dispatched, serve, serves,
}
use kasten_frs_web.Handlers.Serving.Apart.{IsOf, SameAnswer}
use kasten_frs_web.Handlers.Serving.Apart.Users.{serve-SameAnswer}
use kasten_frs_web.Handlers.Serving.Histories.{pool_get-Dialled}
use kasten_frs_web.Handlers.Serving.Pooled.{Dialled}
use kasten_frs_web.Handlers.Serving.Quiet.{ReadingKeeps}
use kasten_frs_web.Handlers.Serving.Reads.{MayDo, serve-MayDo}
use kasten_frs_web.Handlers.Sessions.{handle_connect}
use kasten_frs_web.Handlers.Tests.{fresh_state, frs_a, helper}
use kasten_frs_web.Http.{see_other, cookie, message}
use kasten_frs_web.K8s.{ref_beq}
use kasten_frs_web.SftpClient.Pool.{key_eq, Pool, new_pool, store, SessionKey}
use kasten_frs_web.SftpClient.Pool.Agreeing.{Agrees}
use kasten_frs_web.SftpClient.Pool.Lookup.{get-store}
use kasten_frs_web.Std.Base64.{encode, to_sextets, enc_char}
use kasten_frs_web.Std.Strings.{join}

abbrev server : Server ℕ
server = record helper { auth = operator; mac = toy_mac }

abbrev no_files : FileServer
no_files r headers = record {
  status = 404;
  headers = headers;
  set_cookies = [];
  content = message (str "404 page not found");
}

abbrev moment : Moment
moment = record { now = 9000000000; id_bytes = none; fuel = 3 }

abbrev connected : Reply × State ℕ
connected = (
  see_other (browse_url frs_a (str "/")),
  record fresh_state {
    pool = store (session_key server frs_a connecting) 1 9000000000 (new_pool (pos 100));
  },
)

connecting_connects :
    serve server no_files moment connecting connect_path fresh_state ≡ some connected
unfolding serve serve_dispatched handle handle_connect text_beq new_pool ref_beq
connecting_connects = rw (connecting_arrives Page) refl

unchanging : ReadingKeeps server (λ w. w ≡ 0)
unchanging = record {
  list_all = λ ns w h. h;
  get_frs = λ ref w h. h;
  lookup_source = λ v w h. h;
  list_vms_of = λ ns w h. h;
  list_namespaces = λ w h. h;
  list_points = λ ns name w h. h;
  get_details = λ ns name w h. h;
  list_dir = λ x p w h. h;
  stat = λ x p w h. h;
  open_file = λ x p w h. h;
  copy = λ reader w h. h;
  write_header = λ name info w h. h;
}

serve-MayDo_example :
    MayDo server no_files (λ w. w ≡ 0) unchanging 9000000000 connecting fresh_state connected.1
serve-MayDo_example =
    serve-MayDo server no_files (λ w. w ≡ 0) unchanging moment connecting connect_path fresh_state
      connected.1 connected.0 refl connecting_connects

connected_reached : Reach server no_files (pos 100) connected.1
connected_reached =
    next (here 0) (serves moment connecting connect_path connected.0 connecting_connects)

pool_has : (pool_get server frs_a 9000000050 connecting connected.1).0 ≡ some 1
unfolding new_pool
pool_has =
    (get-store (session_key server frs_a connecting) 1 9000000000 9000000050 (new_pool (pos 100))).0

pool_get-Dialled_example : Dialled server (session_key server frs_a connecting) 1
pool_get-Dialled_example =
    pool_get-Dialled server no_files (pos 100) connected.1 frs_a 9000000050 connecting 1
      connected_reached pool_has

-- The pool of a server that has a session of another user.
abbrev others : Pool
others = record (new_pool (pos 100)) {
  entries =
      (record { user_session_id = str "other"; frs = frs_a }, record { sess = 5; last_used_at = 0 })
      ∷ [];
}

abbrev operator_id : Str
operator_id = user_id_from_cookie connecting (str "sid")

first_byte : Str → ℕ
first_byte [] = 0
first_byte (c ∷ cs) = c

other_id : str "other" ≢ operator_id
unfolding user_id_from_cookie cookie lookup text_beq first_byte join encode to_sextets enc_char
other_id e = absurd (omega (arith, ap first_byte e))

others-Agrees : Agrees (IsOf operator_id) (new_pool (pos 100)) others
unfolding new_pool lookup
others-Agrees = record {
  ttl = refl;
  unique = (tt, (tt, tt));
  entries = λ k ours. sym (
      lookup_absent k others.entries
        (λ e. other_id (ap (λ (x : SessionKey). x.user_session_id) e ∙ ours), tt));
}

serve-SameAnswer_example :
    SameAnswer operator_id
      (serve server no_files moment connecting connect_path fresh_state)
      (serve server no_files moment connecting connect_path (record fresh_state { pool = others }))
serve-SameAnswer_example =
    serve-SameAnswer server no_files connecting moment connect_path fresh_state
      (record fresh_state { pool = others }) (record { rest = refl; pools = others-Agrees })
