-- ===== src/Workflow/Handler/Tests.antt =====
-- Runs of internal/workflow/handler.go.
use sqlproxy.Prelude.{List, [], ◌∷◌, Text, codes, Bool, true, false, none, Dict, ℤ, pos}
use sqlproxy.Params.Values.{Value, int, text}
use sqlproxy.Params.{ParamConfig}
use sqlproxy.Params.Tests.{whole}
use sqlproxy.Workflow.Handler.Parameters.{FormRequest}

abbrev param : Text → Text → Bool → ParamConfig
param name type_name required = record {
  name = name;
  type_name = type_name;
  required = required;
  default = [];
}

abbrev users : List ParamConfig
users = param (codes "id") (codes "int") true ∷ param (codes "sort") (codes "string") false ∷ []

abbrev path : Text
path = codes "/api/{id}"

abbrev plain : FormRequest whole
plain = record {
  content_type = [];
  json_body = none;
  form_error = none;
  path_value = λ name. codes "42";
  form_value = λ name. [];
}

abbrev bound : Dict (Value ℤ Text)
bound = (codes "id", int (pos 42)) ∷ (codes "sort", text []) ∷ []

abbrev page : List ParamConfig
page = param (codes "page") (codes "int") false ∷ []
