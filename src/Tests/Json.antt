-- ===== src/Tests/Json.antt =====
-- JSON trees for the tests: each item has its key, which is empty outside an object.
use Prim.Native.String.{String}
use esp32_web_chat.Common.{
  ℕ, Bool, true, false, Option, none, some, List, [], ◌∷◌, Bytes, codes, bytes_eq, if◌then◌else◌,
}

mutual
  pub data Tree : Type 0 where
    number : Bytes → ℕ → Tree
    text : Bytes → Bytes → Tree
    boolean : Bytes → Bool → Tree
    array : Bytes → Trees → Tree
    object : Bytes → Trees → Tree

  pub data Trees : Type 0 where
    leaf : Trees
    more : Tree → Trees → Trees

abbrev pub key : Tree → Bytes
key (number k n) = k
key (text k t) = k
key (boolean k b) = k
key (array k ts) = k
key (object k ts) = k

abbrev pub kind_is_object : Tree → Bool
kind_is_object (object k ts) = true
kind_is_object _ = false

abbrev pub kind_is_array : Tree → Bool
kind_is_array (array k ts) = true
kind_is_array _ = false

abbrev pub kind_is_text : Tree → Bool
kind_is_text (text k t) = true
kind_is_text _ = false

abbrev pub kind_is_number : Tree → Bool
kind_is_number (number k n) = true
kind_is_number _ = false

abbrev pub kind_is_boolean : Tree → Bool
kind_is_boolean (boolean k b) = true
kind_is_boolean _ = false

abbrev pub holds : Tree → Bool
holds (boolean k b) = b
holds _ = false

abbrev pub text_of : Tree → Option Bytes
text_of (text k t) = some t
text_of _ = none

abbrev pub number_of : Tree → ℕ
number_of (number k n) = n
number_of _ = 0

abbrev pub list_of : Trees → List Tree
list_of leaf = []
list_of (more t ts) = t ∷ list_of ts

abbrev pub items : Tree → List Tree
items (array k ts) = list_of ts
items (object k ts) = list_of ts
items _ = []

abbrev pub find : Bytes → List Tree → Option Tree
find k [] = none
find k (t ∷ ts) = if bytes_eq k (key t) then some t else find k ts

abbrev pub lookup : Tree → String → Option Tree
lookup t k = find (codes k) (items t)

abbrev pub append : Trees → Tree → Trees
append leaf t = more t leaf
append (more u us) t = more u (append us t)

abbrev pub insert : Tree → Tree → Tree
insert (array k ts) t = array k (append ts t)
insert (object k ts) t = object k (append ts t)
insert other t = other

-- Only an object takes an item with a key.
abbrev pub insert_into : Tree → Tree → Option (Tree × Tree)
insert_into (object k ts) t = some (object k (append ts t), t)
insert_into other t = none

abbrev remove : Bytes → Trees → Trees
remove k leaf = leaf
remove k (more t ts) = let rest = remove k ts in if bytes_eq k (key t) then rest else more t rest

abbrev pub without : Tree → String → Tree
without (object k ts) removed = object k (remove (codes removed) ts)
without other removed = other

abbrev pub put : Bytes → Tree → Trees → Trees
put k new leaf = leaf
put k new (more t ts) =
    let rest = put k new ts in if bytes_eq k (key t) then more new ts else more t rest

abbrev pub replace : Tree → String → Tree → Tree
replace (object k ts) at new = object k (put (codes at) new ts)
replace (array k ts) at new = array k (put (codes at) new ts)
replace other at new = other

-- The text of a text, and the number of a number.
abbrev pub print : Tree → Bytes
print (text k t) = t
print (number k n) = n ∷ []
print _ = []
