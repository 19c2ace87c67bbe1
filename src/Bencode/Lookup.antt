-- ===== src/Bencode/Lookup.antt =====
-- include/bencode.h: what the accessors promise.
use ps5torrent.Base.{
  ℕ, zero, suc, ◌≤◌, ◌<◌, ◌≡◌, ◌↔◌, ◌≢◌, refl, ap, ◌∙◌, Bool, true, false, ◌&&◌, none, some, Bytes,
  length, bytes_eq, bytes_eq→eq, bytes_eq_refl, leb, ◌==◌, if◌then◌else◌, arith, Bool-cases, inl,
  inr,
}
use ps5torrent.Bencode.Node.{
  Node, Items, Fields, list, dict, no_items, item, no_fields, field, count_items, append_fields,
  find_field, dict_get, get_item, list_get, list_len,
}

-- The key stands in no entry.
pub Lacks : Fields → Bytes → Type 0
Lacks no_fields key = Unit
Lacks (field k v fs) key = (k ≢ key) × Lacks fs key

same_key : Bytes → Bytes → Bool
same_key k key = (length k == length key) && bytes_eq k key

same_key→eq : (k key : Bytes) → same_key k key ≡ true → k ≡ key
unfolding same_key
same_key→eq k key h = bytes_eq→eq k key (ground arith)

same_key_refl : (k : Bytes) → same_key k k ≡ true
unfolding same_key
same_key_refl k = ground (arith, bytes_eq_refl k)

find_field_cons :
    (k : Bytes) (v : Node) (fs : Fields) (key : Bytes)
    → find_field (field k v fs) key ≡ (if same_key k key then some v else find_field fs key)
unfolding find_field same_key
find_field_cons k v fs key = refl

-- A successful lookup splits the entries at the first one with the key.
pub record FirstAt (fs : Fields) (key : Bytes) (v : Node) : Type 0 where
  pub before : Fields
  pub behind : Fields
  pub split : fs ≡ append_fields before (field key v behind)
  pub lacks : Lacks before key

find_field_first :
    (fs : Fields) (key : Bytes) (v : Node) → find_field fs key ≡ some v → FirstAt fs key v
unfolding Lacks
find_field_first no_fields key v h = absurd (unfold find_field in cc)
find_field_first (field k w fs) key v h = elim (Bool-cases (same_key k key)) [
  | inl same ↦
      let e : some w ≡ some v = rw (find_field_cons k w fs key, same) at h in
      record { before = no_fields; behind = fs; split = cc (same_key→eq k key same); lacks = tt }
  | inr other ↦
      let e : find_field fs key ≡ some v = rw (find_field_cons k w fs key, other) at h in
      let at_v = find_field_first fs key v e in
      record {
        before = field k w at_v.before;
        behind = at_v.behind;
        split = ap (field k w) at_v.split;
        lacks = (λ same. cc (same_key_refl k), at_v.lacks);
      }
]

find_field-append :
    (before behind : Fields) (key : Bytes) (v : Node)
    → Lacks before key
    → find_field (append_fields before (field key v behind)) key ≡ some v
unfolding Lacks
find_field-append no_fields behind key v h =
    find_field_cons key v behind key ∙ rw (same_key_refl key)
find_field-append (field k w fs) behind key v (other, h) =
    find_field_cons k w (append_fields fs (field key v behind)) key
    ∙ elim (Bool-cases (same_key k key)) [
      | inl same ↦ absurd (other (same_key→eq k key same))
      | inr ne ↦ rw ne (find_field-append fs behind key v h)
    ]

-- bcode_dict_get returns a value exactly when the dictionary splits at an entry with that key and
-- that value, with no entry of the key before it.
pub dict_get_iff :
    (fs : Fields) (key : Bytes) (v : Node) → (dict_get (dict fs) key ≡ some v) ↔ FirstAt fs key v
unfolding dict_get
dict_get_iff fs key v =
    (find_field_first fs key v, λ a. rw a.split (find_field-append a.before a.behind key v a.lacks))

get_item_in : (xs : Items) (i : ℕ) → i < count_items xs → (v : Node) × (get_item xs i ≡ some v)
unfolding get_item
get_item_in no_items i h = elim h [ ]
get_item_in (item v xs) zero h = (v, refl)
get_item_in (item v xs) (suc i) h = get_item_in xs i (omega arith)

-- bcode_list_get finds a child exactly at the indices below bcode_list_len.
pub list_get-list_len :
    (xs : Items) (i : ℕ)
    → (i < list_len (list xs) → (v : Node) × (list_get (list xs) i ≡ some v))
      × (list_len (list xs) ≤ i → list_get (list xs) i ≡ none)
unfolding list_get list_len
list_get-list_len xs i = (
  λ h.
      let (v, e) = get_item_in xs i h in
      let inside : leb (count_items xs) i ≡ false = ground arith in (v, rw (inside, e)),
  λ h. ground arith,
)
