-- ===== src/Http/Server/Fields.antt =====
-- The fields of an answer (internal/interfaces/http/server.go).
use kafka_lab.Base.{
  Bool, Bool-cases, List, [], any, any-append, false, inl, inr, refl, ℕ, ◌++◌, ◌==◌, ◌∙◌, ◌∷◌, ◌≡◌,
}
use kafka_lab.Base.Text.{Text, text_eq}
use kafka_lab.Http.Refusals.{status_service_unavailable}
use kafka_lab.Http.Server.{
  Body, Field, fixed_fields, respond, retry_after, retry_fields, trace_fields,
}

abbrev pub has_field : Text → List Field → Bool
has_field name fields = any (λ f. text_eq f.0 name) fields

trace_fields_lem : (trace_id : Text) → has_field retry_after (trace_fields trace_id) ≡ false
unfolding text_eq
trace_fields_lem [] = refl
trace_fields_lem (b ∷ trace_id) = refl

retry_fields_lem :
    (status : ℕ)
    → has_field retry_after (fixed_fields ++ retry_fields status)
      ≡ (status == status_service_unavailable)
unfolding text_eq
retry_fields_lem status = elim (Bool-cases (status == status_service_unavailable)) [
  | inl e ↦ rw e refl
  | inr e ↦ rw e refl
]

-- An answer says when to come back exactly when its status is 503.
pub has_field-respond :
    (trace_id : Text) (status : ℕ) (body : Body)
    → has_field retry_after (respond trace_id status body).fields
      ≡ (status == status_service_unavailable)
unfolding respond
has_field-respond trace_id status body =
    any-append (λ (f : Field). text_eq f.0 retry_after) (trace_fields trace_id)
      (fixed_fields ++ retry_fields status)
    ∙ rw (trace_fields_lem trace_id) (retry_fields_lem status)
