-- ===== src/Middleware/Tests.antt =====
-- Runs of the access log.
use kasten_frs_web.Base.{
  nat_eq, text_eq, ◌≡◌, refl, true, false, none, some, List, [], ◌∷◌, text_beq, str,
}
use kasten_frs_web.Http.{Request}
use kasten_frs_web.Middleware.{
  Write, write_header, write_body, AccessLine, access_log, recoverer, send_all,
}
use kasten_frs_web.Middleware.Recording.{recoverer-status}

abbrev browse_request : Request
browse_request = record {
  method = str "GET";
  path = str "/browse";
  headers = [];
  cookies = [];
  query = [];
  form = [];
  form_error = false;
}

abbrev half_page : List Write
half_page = write_body (str "<html>") ∷ []

recoverer-status_example :
    (line : AccessLine) × (access_log
        (str "id")
        browse_request
        (recoverer (record { writes = write_header 200 ∷ half_page; panics = true }))
      ≡ some line)
    × (line.status ≡ 500)
    × (send_all none
          (recoverer (record { writes = write_header 200 ∷ half_page; panics = true })).writes
        ≡ send_all none (write_header 200 ∷ half_page))
unfolding text_beq
recoverer-status_example =
    recoverer-status (str "id") browse_request (write_header 200) half_page refl
