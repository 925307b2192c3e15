-- ===== src/Examples/Envelopes/Fields.antt =====
-- Envelopes of blocks of agent/conversation/json_marshal.go, compared field by field.
use gude_agents.Prelude.{
  Bool, true, false, ◌&&◌, List, [], ◌∷◌, ◌≡◌, refl, sym, ◌==◌, eq_iff, and_split, clash,
}
use gude_agents.Conversation.Envelope.{JsonContentBlock}

abbrev both_empty : {A : Type 0} → List A → List A → Bool
both_empty [] [] = true
both_empty [] (y ∷ ys) = false
both_empty (x ∷ xs) ys = false

both_empty-eq : {A : Type 0} (xs ys : List A) → both_empty xs ys ≡ true → xs ≡ ys
both_empty-eq [] [] e = refl
both_empty-eq [] (y ∷ ys) e = absurd (clash false e refl)
both_empty-eq (x ∷ xs) ys e = absurd (clash false e refl)

abbrev same_flag : Bool → Bool → Bool
same_flag true b = b
same_flag false true = false
same_flag false false = true

same_flag-eq : (a b : Bool) → same_flag a b ≡ true → a ≡ b
same_flag-eq true b e = sym e
same_flag-eq false true e = absurd (clash false e refl)
same_flag-eq false false e = refl

-- Blocks without bytes and images are compared field by field.
module _ (a b : JsonContentBlock) where
  abbrev same_names : Bool
  same_names =
      (a.type_name == b.type_name)
      && ((a.text == b.text)
          && ((a.tool_use_id == b.tool_use_id)
              && ((a.name == b.name)
                  && ((both_empty a.input b.input) && (a.content == b.content)))))

  abbrev same_image : Bool
  same_image =
      (same_flag a.is_error b.is_error)
      && ((both_empty a.image_bytes b.image_bytes)
          && ((a.image_base64 == b.image_base64)
              && ((a.image_url == b.image_url) && (a.image_mime_type == b.image_mime_type))))

  abbrev same_source : Bool
  same_source =
      (both_empty a.doc_bytes b.doc_bytes)
      && ((a.doc_base64 == b.doc_base64)
          && ((a.doc_url == b.doc_url)
              && ((a.doc_file_id == b.doc_file_id) && (a.doc_s3_uri == b.doc_s3_uri))))

  abbrev same_widget : Bool
  same_widget =
      (a.doc_s3_bucket_owner == b.doc_s3_bucket_owner)
      && ((a.doc_mime_type == b.doc_mime_type)
          && ((a.doc_name == b.doc_name)
              && ((both_empty a.tool_result_images b.tool_result_images)
                  && ((a.widget_type == b.widget_type)
                      && (both_empty a.widget_payload b.widget_payload)))))

  abbrev pub same_block : Bool
  same_block = same_names && (same_image && (same_source && same_widget))

  same_names-eq :
      same_names ≡ true
      → (a.type_name ≡ b.type_name)
        × (a.text ≡ b.text)
        × (a.tool_use_id ≡ b.tool_use_id)
        × (a.name ≡ b.name)
        × (a.input ≡ b.input)
        × (a.content ≡ b.content)
  same_names-eq e =
      let (h0, t0) =
        and_split (a.type_name == b.type_name)
          ((a.text == b.text)
            && ((a.tool_use_id == b.tool_use_id)
                && ((a.name == b.name)
                    && ((both_empty a.input b.input) && (a.content == b.content)))))
          e in
      let (h1, t1) =
        and_split (a.text == b.text)
          ((a.tool_use_id == b.tool_use_id)
            && ((a.name == b.name) && ((both_empty a.input b.input) && (a.content == b.content))))
          t0 in
      let (h2, t2) =
        and_split (a.tool_use_id == b.tool_use_id)
          ((a.name == b.name) && ((both_empty a.input b.input) && (a.content == b.content))) t1 in
      let (h3, t3) =
        and_split (a.name == b.name) ((both_empty a.input b.input) && (a.content == b.content))
          t2 in
      let (h4, t4) = and_split (both_empty a.input b.input) (a.content == b.content) t3 in
      (
        (eq_iff a.type_name b.type_name).0 h0,
        (eq_iff a.text b.text).0 h1,
        (eq_iff a.tool_use_id b.tool_use_id).0 h2,
        (eq_iff a.name b.name).0 h3,
        both_empty-eq a.input b.input h4,
        (eq_iff a.content b.content).0 t4,
      )

  same_image-eq :
      same_image ≡ true
      → (a.is_error ≡ b.is_error)
        × (a.image_bytes ≡ b.image_bytes)
        × (a.image_base64 ≡ b.image_base64)
        × (a.image_url ≡ b.image_url)
        × (a.image_mime_type ≡ b.image_mime_type)
  same_image-eq e =
      let (h0, t0) =
        and_split (same_flag a.is_error b.is_error)
          ((both_empty a.image_bytes b.image_bytes)
            && ((a.image_base64 == b.image_base64)
                && ((a.image_url == b.image_url) && (a.image_mime_type == b.image_mime_type))))
          e in
      let (h1, t1) =
        and_split (both_empty a.image_bytes b.image_bytes)
          ((a.image_base64 == b.image_base64)
            && ((a.image_url == b.image_url) && (a.image_mime_type == b.image_mime_type)))
          t0 in
      let (h2, t2) =
        and_split (a.image_base64 == b.image_base64)
          ((a.image_url == b.image_url) && (a.image_mime_type == b.image_mime_type)) t1 in
      let (h3, t3) =
        and_split (a.image_url == b.image_url) (a.image_mime_type == b.image_mime_type) t2 in
      (
        same_flag-eq a.is_error b.is_error h0,
        both_empty-eq a.image_bytes b.image_bytes h1,
        (eq_iff a.image_base64 b.image_base64).0 h2,
        (eq_iff a.image_url b.image_url).0 h3,
        (eq_iff a.image_mime_type b.image_mime_type).0 t3,
      )

  same_source-eq :
      same_source ≡ true
      → (a.doc_bytes ≡ b.doc_bytes)
        × (a.doc_base64 ≡ b.doc_base64)
        × (a.doc_url ≡ b.doc_url)
        × (a.doc_file_id ≡ b.doc_file_id)
        × (a.doc_s3_uri ≡ b.doc_s3_uri)
  same_source-eq e =
      let (h0, t0) =
        and_split (both_empty a.doc_bytes b.doc_bytes)
          ((a.doc_base64 == b.doc_base64)
            && ((a.doc_url == b.doc_url)
                && ((a.doc_file_id == b.doc_file_id) && (a.doc_s3_uri == b.doc_s3_uri))))
          e in
      let (h1, t1) =
        and_split (a.doc_base64 == b.doc_base64)
          ((a.doc_url == b.doc_url)
            && ((a.doc_file_id == b.doc_file_id) && (a.doc_s3_uri == b.doc_s3_uri)))
          t0 in
      let (h2, t2) =
        and_split (a.doc_url == b.doc_url)
          ((a.doc_file_id == b.doc_file_id) && (a.doc_s3_uri == b.doc_s3_uri)) t1 in
      let (h3, t3) = and_split (a.doc_file_id == b.doc_file_id) (a.doc_s3_uri == b.doc_s3_uri) t2 in
      (
        both_empty-eq a.doc_bytes b.doc_bytes h0,
        (eq_iff a.doc_base64 b.doc_base64).0 h1,
        (eq_iff a.doc_url b.doc_url).0 h2,
        (eq_iff a.doc_file_id b.doc_file_id).0 h3,
        (eq_iff a.doc_s3_uri b.doc_s3_uri).0 t3,
      )

  same_widget-eq :
      same_widget ≡ true
      → (a.doc_s3_bucket_owner ≡ b.doc_s3_bucket_owner)
        × (a.doc_mime_type ≡ b.doc_mime_type)
        × (a.doc_name ≡ b.doc_name)
        × (a.tool_result_images ≡ b.tool_result_images)
        × (a.widget_type ≡ b.widget_type)
        × (a.widget_payload ≡ b.widget_payload)
  same_widget-eq e =
      let (h0, t0) =
        and_split (a.doc_s3_bucket_owner == b.doc_s3_bucket_owner)
          ((a.doc_mime_type == b.doc_mime_type)
            && ((a.doc_name == b.doc_name)
                && ((both_empty a.tool_result_images b.tool_result_images)
                    && ((a.widget_type == b.widget_type)
                        && (both_empty a.widget_payload b.widget_payload)))))
          e in
      let (h1, t1) =
        and_split (a.doc_mime_type == b.doc_mime_type)
          ((a.doc_name == b.doc_name)
            && ((both_empty a.tool_result_images b.tool_result_images)
                && ((a.widget_type == b.widget_type)
                    && (both_empty a.widget_payload b.widget_payload))))
          t0 in
      let (h2, t2) =
        and_split (a.doc_name == b.doc_name)
          ((both_empty a.tool_result_images b.tool_result_images)
            && ((a.widget_type == b.widget_type) && (both_empty a.widget_payload b.widget_payload)))
          t1 in
      let (h3, t3) =
        and_split (both_empty a.tool_result_images b.tool_result_images)
          ((a.widget_type == b.widget_type) && (both_empty a.widget_payload b.widget_payload)) t2 in
      let (h4, t4) =
        and_split (a.widget_type == b.widget_type) (both_empty a.widget_payload b.widget_payload)
          t3 in
      (
        (eq_iff a.doc_s3_bucket_owner b.doc_s3_bucket_owner).0 h0,
        (eq_iff a.doc_mime_type b.doc_mime_type).0 h1,
        (eq_iff a.doc_name b.doc_name).0 h2,
        both_empty-eq a.tool_result_images b.tool_result_images h3,
        (eq_iff a.widget_type b.widget_type).0 h4,
        both_empty-eq a.widget_payload b.widget_payload t4,
      )

  pub same_block-eq : same_block ≡ true → a ≡ b
  same_block-eq e =
      let (h0, t0) = and_split same_names (same_image && (same_source && same_widget)) e in
      let (h1, t1) = and_split same_image (same_source && same_widget) t0 in
      let (h2, h3) = and_split same_source same_widget t1 in
      let names = same_names-eq h0 in
      let image = same_image-eq h1 in
      let source = same_source-eq h2 in
      let widget = same_widget-eq h3 in
      λ i. record {
        type_name = names.0 i;
        text = names.1 i;
        tool_use_id = names.2 i;
        name = names.3 i;
        input = names.4 i;
        content = names.5 i;
        is_error = image.0 i;
        image_bytes = image.1 i;
        image_base64 = image.2 i;
        image_url = image.3 i;
        image_mime_type = image.4 i;
        doc_bytes = source.0 i;
        doc_base64 = source.1 i;
        doc_url = source.2 i;
        doc_file_id = source.3 i;
        doc_s3_uri = source.4 i;
        doc_s3_bucket_owner = widget.0 i;
        doc_mime_type = widget.1 i;
        doc_name = widget.2 i;
        tool_result_images = widget.3 i;
        widget_type = widget.4 i;
        widget_payload = widget.5 i;
      }
