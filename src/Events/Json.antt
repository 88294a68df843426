-- ===== src/Events/Json.antt =====
-- packages/forge-application/src/events/live-provider-event-normalizer.ts: the checks of texts, numbers and
-- JSON values.
pub mod Limits
use Prim.Native.Char.{code}
use Prim.Native.Nat.{◌^◌}
use cyclewarden.Prelude.{
  ℕ, ◌+◌, ◌-◌, Bool, false, ◌&&◌, ◌||◌, String, ltb, leb, nat_beq, trim, utf16_length, ℤ, pos,
  negsuc, if◌then◌else◌, Json, null, bool, num, str, arr, obj, Items, nil, cons, Fields, end, field,
  ◌==◌, string_eq,
}
use cyclewarden.Domain.Errors.{
  Result, ok, throw, invalid_input, invalid_event, payload_limit_exceeded, ◌>>=◌, ◌>>◌,
}

abbrev pub max_identifier_length : ℕ
max_identifier_length = 512

abbrev pub max_text_length : ℕ
max_text_length = 100000

abbrev pub max_json_depth : ℕ
max_json_depth = 20

abbrev pub max_json_nodes : ℕ
max_json_nodes = 10000

-- `[\u0000-\u0008\u000b\u000c\u000e-\u001f\u007f]`
abbrev pub is_control : ℕ → Bool
is_control c = leb c 8 || nat_beq c 11 || nat_beq c 12 || (leb 14 c && leb c 31) || nat_beq c 127

-- `CONTROL_CHARACTER_PATTERN.test(text)`
abbrev pub has_control : String → Bool
has_control String.[] = false
has_control (String.◌∷◌ c s) = is_control (code c) || has_control s

unfoldable pub normalize_text : String → ℕ → Result String
normalize_text value maximum_length =
    let normalized = trim value in
    if nat_beq (utf16_length normalized) 0
      || ltb maximum_length (utf16_length normalized)
      || has_control normalized
    then throw invalid_input
    else ok normalized

-- `Number.MAX_SAFE_INTEGER`
abbrev pub max_safe_integer : ℕ
max_safe_integer = 2 ^ 53 - 1

-- `normalizeNonNegativeInteger` and, with the least value 1, `normalizePositiveInteger`.
abbrev pub normalize_integer_from : ℕ → ℤ → Result ℕ
normalize_integer_from least (pos n) =
    if ltb max_safe_integer n || ltb n least then throw invalid_event else ok n
normalize_integer_from least (negsuc n) = throw invalid_event

-- `normalized[key] = value`: a present key keeps its place.
abbrev pub set_field : String → Json → Fields → Fields
set_field key value end = field key value end
set_field key value (field k v fs) =
    if k == key then field k value fs else field k v (set_field key value fs)

-- Before a value: it is counted, and the limits are checked.
abbrev pub within_limits : ℕ → ℕ → (ℕ → Result (Json × ℕ)) → Result (Json × ℕ)
within_limits depth nodes inside =
    if ltb max_json_nodes (nodes + 1) || ltb max_json_depth depth
    then throw payload_limit_exceeded
    else inside (nodes + 1)

-- A value of `Json` is made of what JSON has, so that the refusals of other values do not arise. The state is the
-- number of nodes so far.
unfoldable mutual
  unfolding normalize_text

  pub normalize_json_value : Json → ℕ → ℕ → Result (Json × ℕ)
  normalize_json_value null depth nodes = within_limits depth nodes λ n. ok (null, n)
  normalize_json_value (bool b) depth nodes = within_limits depth nodes λ n. ok (bool b, n)
  normalize_json_value (num z) depth nodes = within_limits depth nodes λ n. ok (num z, n)
  normalize_json_value (str s) depth nodes = within_limits depth nodes λ n. ok (str s, n)
  normalize_json_value (arr xs) depth nodes =
      within_limits depth nodes
        λ n. normalize_items xs (depth + 1) n >>= λ result. ok (arr (result.0), result.1)
  normalize_json_value (obj fs) depth nodes =
      within_limits depth nodes
        λ n. normalize_fields fs (depth + 1) n end >>= λ result. ok (obj (result.0), result.1)

  pub normalize_items : Items → ℕ → ℕ → Result (Items × ℕ)
  normalize_items nil depth nodes = ok (nil, nodes)
  normalize_items (cons x xs) depth nodes = normalize_json_value x depth nodes >>= λ first.
      normalize_items xs depth (first.1) >>= λ rest. ok (cons (first.0) (rest.0), rest.1)

  pub normalize_fields : Fields → ℕ → ℕ → Fields → Result (Fields × ℕ)
  normalize_fields end depth nodes so_far = ok (so_far, nodes)
  normalize_fields (field key item fs) depth nodes so_far =
      normalize_text key 256 >>= λ normalized_key.
      normalize_json_value item depth nodes >>= λ first.
      normalize_fields fs depth (first.1) (set_field normalized_key (first.0) so_far)
