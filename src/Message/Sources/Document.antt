-- ===== src/Message/Sources/Document.antt =====
-- What `DocumentSource.Validate` of agent/content.go accepts.
use gude_agents.Prelude.{
  ℕ, String, Bool, true, false, List, [], ◌∷◌, none, eq_iff, inl, inr, refl, ◌⊎◌, ◌↔◌, ◌≡◌, ◌≢◌,
  arith,
}
use gude_agents.Message.{DocumentSource}
use gude_agents.Message.Sources.{
  document_mime_types, is_listed, has_bytes, has_text, document_sources, validate_document,
}

has_text-empty : (t : String) → (has_text t ≡ false) ↔ (t ≡ "")
unfolding has_text
has_text-empty t = (λ e. ground (arith, eq_iff t ""), λ e. ground (arith, eq_iff t ""))

has_text-given : (t : String) → (has_text t ≡ true) ↔ (t ≢ "")
unfolding has_text
has_text-given t = (λ e. ground (arith, eq_iff t ""), λ e. ground (arith, eq_iff t ""))

has_bytes-empty : (bytes : List ℕ) → (has_bytes bytes ≡ false) ↔ (bytes ≡ [])
unfolding has_bytes
has_bytes-empty [] = (λ e. refl, λ e. refl)
has_bytes-empty (x ∷ xs) = (λ e. ground arith, λ e. ground arith)

has_bytes-given : (bytes : List ℕ) → (has_bytes bytes ≡ true) ↔ (bytes ≢ [])
unfolding has_bytes
has_bytes-given [] = (λ e. ground arith, λ e. absurd (e refl))
has_bytes-given (x ∷ xs) = (λ e f. ground arith, λ e. refl)

-- The document has exactly one of the five sources, and that one is fit.
pub data HasOneSource (has_prefix : String → String → Bool) (s : DocumentSource) : Type 0 where
  by_s3 :
      s.bytes ≡ []
      → s.base64 ≡ ""
      → s.url ≡ ""
      → s.file_id ≡ ""
      → s.s3_uri ≢ ""
      → has_prefix s.s3_uri "s3://" ≡ true
      → HasOneSource has_prefix s
  by_url :
      s.bytes ≡ []
      → s.base64 ≡ ""
      → s.url ≢ ""
      → s.file_id ≡ ""
      → s.s3_uri ≡ ""
      → HasOneSource has_prefix s
  by_file :
      s.bytes ≡ []
      → s.base64 ≡ ""
      → s.url ≡ ""
      → s.file_id ≢ ""
      → s.s3_uri ≡ ""
      → HasOneSource has_prefix s
  by_base64 :
      s.bytes ≡ []
      → s.base64 ≢ ""
      → s.url ≡ ""
      → s.file_id ≡ ""
      → s.s3_uri ≡ ""
      → is_listed document_mime_types s.mime_type ≡ true
      → HasOneSource has_prefix s
  by_bytes :
      s.bytes ≢ []
      → s.base64 ≡ ""
      → s.url ≡ ""
      → s.file_id ≡ ""
      → s.s3_uri ≡ ""
      → is_listed document_mime_types s.mime_type ≡ true
      → HasOneSource has_prefix s

module _ (has_prefix : String → String → Bool) (s : DocumentSource) where
  abbrev Flags : Type 0
  Flags =
      (((has_bytes s.bytes ≡ false)
          × (has_text s.base64 ≡ false)
          × (has_text s.url ≡ false)
          × (has_text s.file_id ≡ false)
          × (has_text s.s3_uri ≡ true)
          × (has_prefix s.s3_uri "s3://" ≡ true))
        ⊎ (((has_bytes s.bytes ≡ false)
              × (has_text s.base64 ≡ false)
              × (has_text s.url ≡ true)
              × (has_text s.file_id ≡ false)
              × (has_text s.s3_uri ≡ false))
            ⊎ (((has_bytes s.bytes ≡ false)
                  × (has_text s.base64 ≡ false)
                  × (has_text s.url ≡ false)
                  × (has_text s.file_id ≡ true)
                  × (has_text s.s3_uri ≡ false))
                ⊎ (((has_bytes s.bytes ≡ false)
                      × (has_text s.base64 ≡ true)
                      × (has_text s.url ≡ false)
                      × (has_text s.file_id ≡ false)
                      × (has_text s.s3_uri ≡ false)
                      × (is_listed document_mime_types s.mime_type ≡ true))
                    ⊎ ((has_bytes s.bytes ≡ true)
                        × (has_text s.base64 ≡ false)
                        × (has_text s.url ≡ false)
                        × (has_text s.file_id ≡ false)
                        × (has_text s.s3_uri ≡ false)
                        × (is_listed document_mime_types s.mime_type ≡ true))))))

  validate_document-flags : (validate_document has_prefix s ≡ none) ↔ Flags
  unfolding validate_document document_sources
  validate_document-flags = ground arith

  -- A document source is accepted exactly where it has one source of the five, and that one is an S3
  -- address with its scheme, a URL, a file identifier, or data of a listed MIME type.
  pub validate_document_iff : (validate_document has_prefix s ≡ none) ↔ HasOneSource has_prefix s
  validate_document_iff =
      (λ e. accepted (validate_document-flags.0 e), λ h. validate_document-flags.1 (flagged h))
    where
      accepted : Flags → HasOneSource has_prefix s
      accepted (inl (b, c, u, f, a, fit)) =
          by_s3 ((has_bytes-empty s.bytes).0 b) ((has_text-empty s.base64).0 c)
            ((has_text-empty s.url).0 u) ((has_text-empty s.file_id).0 f)
            ((has_text-given s.s3_uri).0 a) fit
      accepted (inr (inl (b, c, u, f, a))) =
          by_url ((has_bytes-empty s.bytes).0 b) ((has_text-empty s.base64).0 c)
            ((has_text-given s.url).0 u) ((has_text-empty s.file_id).0 f)
            ((has_text-empty s.s3_uri).0 a)
      accepted (inr (inr (inl (b, c, u, f, a)))) =
          by_file ((has_bytes-empty s.bytes).0 b) ((has_text-empty s.base64).0 c)
            ((has_text-empty s.url).0 u) ((has_text-given s.file_id).0 f)
            ((has_text-empty s.s3_uri).0 a)
      accepted (inr (inr (inr (inl (b, c, u, f, a, fit))))) =
          by_base64 ((has_bytes-empty s.bytes).0 b) ((has_text-given s.base64).0 c)
            ((has_text-empty s.url).0 u) ((has_text-empty s.file_id).0 f)
            ((has_text-empty s.s3_uri).0 a) fit
      accepted (inr (inr (inr (inr ((b, c, u, f, a, fit)))))) =
          by_bytes ((has_bytes-given s.bytes).0 b) ((has_text-empty s.base64).0 c)
            ((has_text-empty s.url).0 u) ((has_text-empty s.file_id).0 f)
            ((has_text-empty s.s3_uri).0 a) fit

      flagged : HasOneSource has_prefix s → Flags
      flagged (by_s3 b c u f a fit) = inl (
        (has_bytes-empty s.bytes).1 b,
        (has_text-empty s.base64).1 c,
        (has_text-empty s.url).1 u,
        (has_text-empty s.file_id).1 f,
        (has_text-given s.s3_uri).1 a,
        fit,
      )
      flagged (by_url b c u f a) = inr (
          inl (
            (has_bytes-empty s.bytes).1 b,
            (has_text-empty s.base64).1 c,
            (has_text-given s.url).1 u,
            (has_text-empty s.file_id).1 f,
            (has_text-empty s.s3_uri).1 a,
          ))
      flagged (by_file b c u f a) = inr (
          inr (
            inl (
              (has_bytes-empty s.bytes).1 b,
              (has_text-empty s.base64).1 c,
              (has_text-empty s.url).1 u,
              (has_text-given s.file_id).1 f,
              (has_text-empty s.s3_uri).1 a,
            )))
      flagged (by_base64 b c u f a fit) = inr (
          inr (
            inr (
              inl (
                (has_bytes-empty s.bytes).1 b,
                (has_text-given s.base64).1 c,
                (has_text-empty s.url).1 u,
                (has_text-empty s.file_id).1 f,
                (has_text-empty s.s3_uri).1 a,
                fit,
              ))))
      flagged (by_bytes b c u f a fit) = inr (
          inr (
            inr (
              inr (
                (
                  (has_bytes-given s.bytes).1 b,
                  (has_text-empty s.base64).1 c,
                  (has_text-empty s.url).1 u,
                  (has_text-empty s.file_id).1 f,
                  (has_text-empty s.s3_uri).1 a,
                  fit,
                )))))
