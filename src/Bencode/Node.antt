-- ===== src/Bencode/Node.antt =====
-- include/bencode.h and src/bencode.c: the tree of nodes, and how a child is added and looked up.
use ps5torrent.Base.{
  ℕ, zero, suc, ◌*◌, Bool, ◌&&◌, Option, none, some, Bytes, length, bytes_eq, leb, ◌==◌,
  if◌then◌else◌,
}

-- A node is tagged by its type; `Fields` keeps each entry's key beside its value, where the source
-- keeps it in the value's node. An int64_t is its bit pattern, below 2 ^ 64.
mutual
  pub data Node : Type 0 where
    str : Bytes → Node
    int : ℕ → Node
    list : Items → Node
    dict : Fields → Node

  pub data Items : Type 0 where
    no_items : Items
    item : Node → Items → Items

  pub data Fields : Type 0 where
    no_fields : Fields
    field : Bytes → Node → Fields → Fields

abbrev pub count_items : Items → ℕ
count_items no_items = 0
count_items (item v xs) = suc (count_items xs)

abbrev pub count_fields : Fields → ℕ
count_fields no_fields = 0
count_fields (field k v fs) = suc (count_fields fs)

abbrev pub append_items : Items → Items → Items
append_items no_items ys = ys
append_items (item v xs) ys = item v (append_items xs ys)

abbrev pub append_fields : Fields → Fields → Fields
append_fields no_fields gs = gs
append_fields (field k v fs) gs = field k v (append_fields fs gs)

-- bcode_add_child: the array of `cap` pointers of eight bytes doubles when it is full. Its callers
-- ignore the -1 of a failed realloc, so the child is then left out.
abbrev pub grown_cap : ℕ → ℕ
grown_cap cap = if cap == 0 then 8 else cap * 2

module _ (malloc : ℕ → Bool) where
  unfoldable pub add_item : Items → ℕ → Node → Items × ℕ
  add_item children cap child =
      if leb cap (count_items children)
      then if malloc (grown_cap cap * 8)
        then (append_items children (item child no_items), grown_cap cap)
        else (children, cap)
      else (append_items children (item child no_items), cap)

  unfoldable pub add_field : Fields → ℕ → Bytes → Node → Fields × ℕ
  add_field children cap key child =
      if leb cap (count_fields children)
      then if malloc (grown_cap cap * 8)
        then (append_fields children (field key child no_fields), grown_cap cap)
        else (children, cap)
      else (append_fields children (field key child no_fields), cap)

-- bcode_dict_get: the first entry whose key has the given bytes.
unfoldable pub find_field : Fields → Bytes → Option Node
find_field no_fields key = none
find_field (field k v fs) key =
    if (length k == length key) && bytes_eq k key then some v else find_field fs key

unfoldable pub dict_get : Node → Bytes → Option Node
unfolding find_field
dict_get (dict fs) key = find_field fs key
dict_get _ key = none

unfoldable pub str_val : Node → Option Bytes
str_val (str s) = some s
str_val _ = none

unfoldable pub int_val : Node → ℕ
int_val (int v) = v
int_val _ = 0

unfoldable pub get_item : Items → ℕ → Option Node
get_item no_items index = none
get_item (item v xs) zero = some v
get_item (item v xs) (suc index) = get_item xs index

unfoldable pub list_get : Node → ℕ → Option Node
unfolding get_item
list_get (list xs) index = if leb (count_items xs) index then none else get_item xs index
list_get _ index = none

unfoldable pub list_len : Node → ℕ
list_len (list xs) = count_items xs
list_len _ = 0
