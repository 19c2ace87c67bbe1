-- ===== src/Bencode/Emit.antt =====
-- The bencoded text of a node, written out with no buffer: what the encoder of src/bencode.c is
-- meant to produce.
use ps5torrent.Base.{◌<◌, ◌^◌, ◌≡◌, [], ◌∷◌, ◌++◌, Bytes, length, refl}
use ps5torrent.Base.Decimal.{print_u64, print_i64}
use ps5torrent.Bencode.Node.{
  Node, Items, Fields, str, int, list, dict, no_items, item, no_fields, field, append_items,
  append_fields,
}

abbrev pub emit_string : Bytes → Bytes
emit_string s = print_u64 (length s) ++ b':' ∷ s

unfoldable mutual
  pub emit : Node → Bytes
  emit (str s) = emit_string s
  emit (int v) = b'i' ∷ (print_i64 v ++ b'e' ∷ [])
  emit (list xs) = b'l' ∷ (emit_items xs ++ b'e' ∷ [])
  emit (dict fs) = b'd' ∷ (emit_fields fs ++ b'e' ∷ [])

  pub emit_items : Items → Bytes
  emit_items no_items = []
  emit_items (item v xs) = emit v ++ emit_items xs

  pub emit_fields : Fields → Bytes
  emit_fields no_fields = []
  emit_fields (field k v fs) = emit_string k ++ (emit v ++ emit_fields fs)

-- Every integer of the tree is the pattern of an int64_t.
unfoldable mutual
  pub IsWord : Node → Type 0
  IsWord (str s) = Unit
  IsWord (int v) = v < 2 ^ 64
  IsWord (list xs) = AreWords xs
  IsWord (dict fs) = AreWordFields fs

  pub AreWords : Items → Type 0
  AreWords no_items = Unit
  AreWords (item v xs) = IsWord v × AreWords xs

  pub AreWordFields : Fields → Type 0
  AreWordFields no_fields = Unit
  AreWordFields (field k v fs) = IsWord v × AreWordFields fs

pub append_items_assoc :
    (xs ys zs : Items) → append_items (append_items xs ys) zs ≡ append_items xs (append_items ys zs)
append_items_assoc no_items ys zs = refl
append_items_assoc (item v xs) ys zs = λ i. item v (append_items_assoc xs ys zs i)

pub append_items_none : (xs : Items) → append_items xs no_items ≡ xs
append_items_none no_items = refl
append_items_none (item v xs) = λ i. item v (append_items_none xs i)

pub append_fields_assoc :
    (xs ys zs : Fields)
    → append_fields (append_fields xs ys) zs ≡ append_fields xs (append_fields ys zs)
append_fields_assoc no_fields ys zs = refl
append_fields_assoc (field k v xs) ys zs = λ i. field k v (append_fields_assoc xs ys zs i)

pub append_fields_none : (xs : Fields) → append_fields xs no_fields ≡ xs
append_fields_none no_fields = refl
append_fields_none (field k v xs) = λ i. field k v (append_fields_none xs i)
