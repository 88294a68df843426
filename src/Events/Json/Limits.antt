-- ===== src/Events/Json/Limits.antt =====
-- The bounds of what the checks let through.
use cyclewarden.Prelude.{
  ℕ, ◌+◌, ◌≤◌, ◌≡◌, ltb, Bool-cases, inl, inr, arith, Json, null, bool, num, str, arr, obj, Items,
  nil, cons, Fields, end, field, ◌||◌,
}
use cyclewarden.Domain.Errors.{Result, ok, ◌>>=◌, bind-ok}
use cyclewarden.Events.Json.{
  normalize_text, max_json_nodes, max_json_depth, within_limits, set_field, normalize_json_value,
  normalize_items, normalize_fields,
}

-- The nodes of a value, and how deep it goes.
abbrev mutual
  pub size : Json → ℕ
  size null = 1
  size (bool b) = 1
  size (num z) = 1
  size (str s) = 1
  size (arr xs) = 1 + items_size xs
  size (obj fs) = 1 + fields_size fs

  pub items_size : Items → ℕ
  items_size nil = 0
  items_size (cons x xs) = size x + items_size xs

  pub fields_size : Fields → ℕ
  fields_size end = 0
  fields_size (field key item fs) = size item + fields_size fs

-- Every node of a value at some depth is at most at the maximal depth.
abbrev mutual
  pub IsShallow : ℕ → Json → Type 0
  IsShallow depth null = depth ≤ max_json_depth
  IsShallow depth (bool b) = depth ≤ max_json_depth
  IsShallow depth (num z) = depth ≤ max_json_depth
  IsShallow depth (str s) = depth ≤ max_json_depth
  IsShallow depth (arr xs) = (depth ≤ max_json_depth) × AreShallow (depth + 1) xs
  IsShallow depth (obj fs) = (depth ≤ max_json_depth) × HasShallowFields (depth + 1) fs

  pub AreShallow : ℕ → Items → Type 0
  AreShallow depth nil = Unit
  AreShallow depth (cons x xs) = IsShallow depth x × AreShallow depth xs

  pub HasShallowFields : ℕ → Fields → Type 0
  HasShallowFields depth end = Unit
  HasShallowFields depth (field key item fs) = IsShallow depth item × HasShallowFields depth fs

inside_limits :
    (depth nodes : ℕ) (inside : ℕ → Result (Json × ℕ)) (r : Json × ℕ)
    → within_limits depth nodes inside ≡ ok r
    → (nodes + 1 ≤ max_json_nodes) × (depth ≤ max_json_depth) × (inside (nodes + 1) ≡ ok r)
inside_limits depth nodes inside r h =
    elim (Bool-cases (ltb max_json_nodes (nodes + 1) || ltb max_json_depth depth)) [
      | inl over ↦ absurd (ground arith)
      | inr within ↦ (ground arith, ground arith, ground arith)
    ]

mutual
  unfolding normalize_json_value

  accepted_count :
      (v : Json) (depth nodes : ℕ) (r : Json × ℕ)
      → normalize_json_value v depth nodes ≡ ok r
      → (r.1 ≡ nodes + size v) × (r.1 ≤ max_json_nodes) × IsShallow depth v
  accepted_count null depth nodes r h =
      let (count, deep, e) = inside_limits depth nodes (λ n. ok (null, n)) r h in
      (ground arith, ground arith, deep)
  accepted_count (bool b) depth nodes r h =
      let (count, deep, e) = inside_limits depth nodes (λ n. ok (bool b, n)) r h in
      (ground arith, ground arith, deep)
  accepted_count (num z) depth nodes r h =
      let (count, deep, e) = inside_limits depth nodes (λ n. ok (num z, n)) r h in
      (ground arith, ground arith, deep)
  accepted_count (str s) depth nodes r h =
      let (count, deep, e) = inside_limits depth nodes (λ n. ok (str s, n)) r h in
      (ground arith, ground arith, deep)
  accepted_count (arr xs) depth nodes r h =
      let (count, deep, e) =
        inside_limits depth nodes
          (λ n. normalize_items xs (depth + 1) n >>= λ t. ok (arr (t.0), t.1)) r h in
      let (t, inner, same) =
        bind-ok (normalize_items xs (depth + 1) (nodes + 1)) (λ t. ok (arr (t.0), t.1)) r e in
      let (total, most, shallow) = counted_items xs (depth + 1) (nodes + 1) t count inner in
      (ground (arith, total), ground (arith, most), (deep, shallow))
  accepted_count (obj fs) depth nodes r h =
      let (count, deep, e) =
        inside_limits depth nodes
          (λ n. normalize_fields fs (depth + 1) n end >>= λ t. ok (obj (t.0), t.1)) r h in
      let (t, inner, same) =
        bind-ok (normalize_fields fs (depth + 1) (nodes + 1) end) (λ t. ok (obj (t.0), t.1)) r e in
      let (total, most, shallow) = counted_fields fs (depth + 1) (nodes + 1) end t count inner in
      (ground (arith, total), ground (arith, most), (deep, shallow))

  counted_items :
      (xs : Items) (depth nodes : ℕ) (r : Items × ℕ)
      → nodes ≤ max_json_nodes
      → normalize_items xs depth nodes ≡ ok r
      → (r.1 ≡ nodes + items_size xs) × (r.1 ≤ max_json_nodes) × AreShallow depth xs
  counted_items nil depth nodes r k h = (ground arith, ground arith, tt)
  counted_items (cons x xs) depth nodes r k h =
      let (first, e, h') = bind-ok (normalize_json_value x depth nodes) _ r h in
      let (rest, e', same) =
        bind-ok (normalize_items xs depth (first.1)) (λ rest. ok (cons (first.0) (rest.0), rest.1))
          r h' in
      let (total, most, shallow) = accepted_count x depth nodes first e in
      let (total', most', shallow') = counted_items xs depth (first.1) rest most e' in
      (ground (arith, total, total'), ground (arith, most'), (shallow, shallow'))

  counted_fields :
      (fs : Fields) (depth nodes : ℕ) (so_far : Fields) (r : Fields × ℕ)
      → nodes ≤ max_json_nodes
      → normalize_fields fs depth nodes so_far ≡ ok r
      → (r.1 ≡ nodes + fields_size fs) × (r.1 ≤ max_json_nodes) × HasShallowFields depth fs
  counted_fields end depth nodes so_far r k h = (ground arith, ground arith, tt)
  counted_fields (field key item fs) depth nodes so_far r k h =
      let (name, e0, h0) = bind-ok (normalize_text key 256) _ r h in
      let (first, e, h') = bind-ok (normalize_json_value item depth nodes) _ r h0 in
      let (total, most, shallow) = accepted_count item depth nodes first e in
      let (total', most', shallow') =
        counted_fields fs depth (first.1) (set_field name (first.0) so_far) r most h' in
      (omega (arith, total, total'), most', (shallow, shallow'))

-- What is accepted is within the limits: the count is that of the value's nodes and at most 10
-- 000, and no node is deeper than 20.
pub accepted_json_is_bounded :
    (v normalized : Json) (nodes : ℕ)
    → normalize_json_value v 0 0 ≡ ok (normalized, nodes)
    → (nodes ≡ size v) × (nodes ≤ max_json_nodes) × IsShallow 0 v
accepted_json_is_bounded v normalized nodes h =
    let (total, most, shallow) = accepted_count v 0 0 (normalized, nodes) h in
    (omega (arith, total), most, shallow)
