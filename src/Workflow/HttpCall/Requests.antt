-- ===== src/Workflow/HttpCall/Requests.antt =====
-- buildHTTPRequest of internal/workflow/execute_httpcall.go, and the errors of the step.
use sqlproxy.Prelude.{
  [], ◌∷◌, Text, codes, Option, none, some, if◌then◌else◌, text_eq, Dict, lookup, insert, Result,
  ok, err, ◌>>=◌, map_err,
}
use sqlproxy.Workflow.HttpCall.Library.{HttpLibrary, Request}

pub data Error : Type 0 where
  url_template body_template create_request context_done request_failed read_response json_parse
        form_parse :
      Text → Error
  header_template : Text → Text → Error
  on_retry : Error → Error

module _ (lib : HttpLibrary) where
  -- the loop over the header templates
  set_headers : Dict lib.Template → Request → Result Error Request
  set_headers [] req = ok req
  set_headers ((name, t) ∷ ts) req = map_err (header_template name) (lib.execute t) >>= λ value.
      set_headers ts (record req { headers = insert (lib.canonical name) value req.headers })

  render_body : Option lib.Template → Result Error (Option Text)
  render_body none = ok none
  render_body (some t) = map_err body_template (lib.execute t) >>= λ body. ok (some body)

  -- a body without a content type is JSON
  default_content_type : Request → Request
  default_content_type req =
      let name = lib.canonical (codes "Content-Type") in
      let typed = record req { headers = insert name (codes "application/json") req.headers } in
      elim req.body [
        | none ↦ req
        | some _ ↦ elim (lookup name req.headers) [
          | none ↦ typed
          | some v ↦ if text_eq v [] then typed else req
        ]
      ]

  unfoldable pub build_http_request :
      Text → Text → Option lib.Template → Dict lib.Template → Result Error Request
  unfolding render_body set_headers default_content_type
  build_http_request method url body_tmpl header_tmpls = render_body body_tmpl >>= λ body.
      elim (lib.invalid_request method url) [
        | some e ↦ err (create_request e)
        | none ↦
            set_headers header_tmpls
              (record { method = method; url = url; headers = []; body = body })
            >>= λ req. ok (default_content_type req)
      ]
