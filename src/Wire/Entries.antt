-- ===== src/Wire/Entries.antt =====
-- src/wire.ts: the entries of a response that are encoded can be decoded.
use sync_engine_v.Base.{
  ℕ, suc, ◌+◌, subst, String, Bool, ◌≡◌, refl, ap, List, [], ◌∷◌, All, length, text_append,
}
use sync_engine_v.Json.{
  Json, number, string, object, Items, Fields, end, field, member, count, to_json_value,
  to_json_items, IsKeyed, member-to_json_fields,
}
use sync_engine_v.Errors.{ok, ok-injective, >>=-eq-ok}
use sync_engine_v.Protocol.{CommittedOperation}
use sync_engine_v.Invariants.Identity.{IsIdentity, submitted_as}
use sync_engine_v.Wire.{
  JsonCodec, encode_payload, entry_json, encode_entries, decode_committed_operation, decode_entries,
  index_path,
}
use sync_engine_v.Wire.Roundtrip.{
  IsCodec, read_non_empty_string-string, decode_payload-encode_payload,
}

module _ {Operation : Type 0} (precedes : String → String → Bool) (codec : JsonCodec Operation)
    (c : IsCodec precedes codec) where
  decode_committed_operation-entry_json :
      (e : CommittedOperation Operation) (operation : Json) (there path : String)
      → IsIdentity (submitted_as e)
      → encode_payload precedes codec e.operation there ≡ ok operation
      → decode_committed_operation codec
          (to_json_value precedes (entry_json precedes codec e operation))
          path
        ≡ ok e
  unfolding decode_committed_operation to_json_value member
  decode_committed_operation-entry_json e operation there path valid encoded =
      let origin : Fields = field "clientId" (string e.origin.client_id) (
        field "clientSequence" (number e.origin.client_sequence)
          (field "intentHash" (string e.origin.intent_hash) end)) in
      let fields : Fields = field "sequence" (number e.sequence) (
        field "operationId" (string e.operation_id)
          (field "origin" (object origin) (field "operation" operation end))) in
      let origin_keyed : IsKeyed origin = (refl, (refl, (refl, tt))) in
      let keyed : IsKeyed fields = (refl, (refl, (refl, (refl, tt)))) in
      rw
        (
          member-to_json_fields precedes "origin" fields keyed,
          member-to_json_fields precedes "sequence" fields keyed,
          member-to_json_fields precedes "operationId" fields keyed,
          member-to_json_fields precedes "operation" fields keyed,
          member-to_json_fields precedes "clientId" origin origin_keyed,
          member-to_json_fields precedes "clientSequence" origin origin_keyed,
          member-to_json_fields precedes "intentHash" origin origin_keyed,
          read_non_empty_string-string e.operation_id (text_append path ".operationId")
              valid.has_operation_id,
          read_non_empty_string-string e.origin.client_id (text_append path ".origin.clientId")
              valid.has_client_id,
          read_non_empty_string-string e.origin.intent_hash (text_append path ".origin.intentHash")
              valid.has_intent_hash,
          decode_payload-encode_payload precedes codec c e.operation operation there
              (text_append path ".operation") encoded,
        )
        refl

  -- the entries of a page, from any index
  pub decode_entries-encode_entries :
      (es : List (CommittedOperation Operation)) (items : Items) (index : ℕ)
      → All (λ e. IsIdentity (submitted_as e)) es
      → encode_entries precedes codec es ≡ ok items
      → (decode_entries codec index (to_json_items precedes items) ≡ ok es)
        × (count items ≡ length es)
  unfolding encode_entries decode_entries to_json_items count
  decode_entries-encode_entries [] items index valid h =
      subst
        (λ (items : Items).
          (decode_entries codec index (to_json_items precedes items) ≡ ok []) × (count items ≡ 0))
        (ok-injective h) (refl, refl)
  decode_entries-encode_entries (e ∷ es) items index valid h =
      let (operation, encoded, h₁) =
        >>=-eq-ok (encode_payload precedes codec e.operation "$.response.entries[].operation") _
          h in
      let (rest, others, h₂) = >>=-eq-ok (encode_entries precedes codec es) _ h₁ in
      let first =
        decode_committed_operation-entry_json e operation "$.response.entries[].operation"
          (index_path "$.response.entries" index) valid.0 encoded in
      let (decoded, counted) = decode_entries-encode_entries es rest (index + 1) valid.1 others in
      subst
        (λ (items : Items).
          (decode_entries codec index (to_json_items precedes items) ≡ ok (e ∷ es))
          × (count items ≡ suc (length es)))
        (ok-injective h₂) (rw (first, decoded) refl, ap suc counted)
