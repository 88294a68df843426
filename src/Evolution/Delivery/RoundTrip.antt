-- ===== src/Evolution/Delivery/RoundTrip.antt =====
-- Records of delivery operations are read as they were written
-- (packages/evolution-core/src/delivery-operation.ts).
use cyclewarden.Prelude.{
  ◌≡◌, refl, true, false, some, String, string_eq, nat_eq, str_iff, is_blank, Json, arith,
}
use cyclewarden.Evolution.Delivery.Operation.{
  OperationPayload, done, kind_text, status_text, DeliveryOperationKind, DeliveryOperationStatus,
}
use cyclewarden.Evolution.Delivery.Record.{
  raw_of, kind_of, status_of, has_shape, is_digest, is_positive, is_valid_child, payload_json,
  with_digest, file_of, check_record, read_record,
}

-- What a record has to have: names that are not empty, and processes with positive numbers.
pub record IsProper (p : OperationPayload) : Type 0 where
  pub has_id : is_blank p.operation_id ≡ false
  pub has_cycle : is_blank p.cycle_id ≡ false
  pub has_actor : is_blank p.actor ≡ false
  pub has_host : is_blank p.owner_host ≡ false
  pub has_owner : is_positive p.owner_pid ≡ true
  pub child_ok : is_valid_child p.child_pid ≡ true

kind_back : (k : DeliveryOperationKind) → kind_of (kind_text k) ≡ some k
kind_back DeliveryOperationKind.execute = refl
kind_back DeliveryOperationKind.verify = refl
kind_back DeliveryOperationKind.publish = refl

status_back : (s : DeliveryOperationStatus) → status_of (status_text s) ≡ some s
status_back DeliveryOperationStatus.running = refl
status_back DeliveryOperationStatus.completed = refl
status_back DeliveryOperationStatus.failed = refl
status_back DeliveryOperationStatus.abandoned = refl

module _ (digest_json : Json → String) (hex : (j : Json) → is_digest (digest_json j) ≡ true) where
  shape_back : (p : OperationPayload) (d : String) → IsProper p → has_shape (raw_of d p) ≡ true
  shape_back p d h = ground arith

  -- A record that is written is read back as it was, with its digest: reading the file of a record
  -- whose names are not empty and whose process numbers are positive gives that record. A digest
  -- is taken to have 64 hexadecimal digits.
  pub read_record-file_of :
      (p : OperationPayload)
      → IsProper p
      → read_record digest_json (file_of digest_json p) ≡ done (with_digest digest_json p)
  unfolding read_record file_of with_digest check_record
  read_record-file_of p h =
      let j : Json = payload_json (raw_of "" p) in
      let d : String = digest_json j in
      rw
        (kind_back p.operation, status_back p.status, shape_back p d h, hex j, (str_iff d d).1 refl)
        refl
