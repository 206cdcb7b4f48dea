-- ===== src/Tests/Targets.antt =====
-- Messages with and without their targets.
use mathlib.Core.Option.{some-injective}
use esp32_web_chat.Common.{
  ◌≡◌, refl, sym, ap, ◌∙◌, Bool-cases, inl, inr, true, false, none, some, [], Bytes, codes,
  bytes_eq, bytes_eq_refl, arith, if◌then◌else◌,
}
use esp32_web_chat.Platform.{◌>>=◌, done, call}
use esp32_web_chat.Protocol.{validate_to_object}
use esp32_web_chat.Protocol.Targets.{Items, HasTargets, validate_to_object-HasTargets}
use esp32_web_chat.Tests.Json.{
  items, Tree, Trees, leaf, more, number, text, boolean, array, object, key, list_of, find, append,
  insert, insert_into, put, lookup, replace,
}
use esp32_web_chat.Tests.Store.{ready, world}

find-append :
    (k : Bytes) (ts : Trees) (t : Tree)
    → key t ≡ k
    → find k (list_of ts) ≡ none
    → find k (list_of (append ts t)) ≡ some t
find-append k leaf t e h = rw (e, bytes_eq_refl k)
find-append k (more u us) t e h = ground (arith, h, find-append k us t e)

find-append_other :
    (k : Bytes) (ts : Trees) (t : Tree)
    → bytes_eq k (key t) ≡ false
    → find k (list_of (append ts t)) ≡ find k (list_of ts)
find-append_other k leaf t e = rw e
find-append_other k (more u us) t e = ground (arith, find-append_other k us t e)

find-put :
    (k : Bytes) (ts : Trees) (u v : Tree)
    → find k (list_of ts) ≡ some u
    → key v ≡ key u
    → find k (list_of (put k v ts)) ≡ some v
find-put k leaf u v h e = absurd (ground (arith, h))
find-put k (more t ts) u v h e = elim (Bool-cases (bytes_eq k (key t))) [
  | inl at ↦
      let same : t ≡ u =
        some-injective _ _ (sym (ap (λ b. if b then some t else find k (list_of ts)) at) ∙ h) in
      let named : bytes_eq k (key v) ≡ true = ap (bytes_eq k) (e ∙ sym (ap key same)) ∙ at in
      ground (arith, at, named)
  | inr after ↦
      let rest =
        find-put k ts u v (sym (ap (λ b. if b then some t else find k (list_of ts)) after) ∙ h) e in
      ground (arith, after, rest)
]

insert_into-object :
    (k : Bytes) (n t n' c : Tree)
    → key t ≡ k
    → find k (items n) ≡ none
    → insert_into n t ≡ some (n', c)
    → find k (items n') ≡ some c
insert_into-object k (object j ts) t n' c e h q =
    let same : (object j (append ts t), t) ≡ (n', c) = some-injective _ _ q in
    sym (ap (λ (x : Tree × Tree). find k (items x.0)) same)
    ∙ find-append k ts t e h
    ∙ ap (λ (x : Tree × Tree). some x.1) same
insert_into-object k (number j m) t n' c e h q = absurd (ground (arith, q))
insert_into-object k (text j m) t n' c e h q = absurd (ground (arith, q))
insert_into-object k (boolean j m) t n' c e h q = absurd (ground (arith, q))
insert_into-object k (array j m) t n' c e h q = absurd (ground (arith, q))

insert_into-other :
    (k : Bytes) (n t n' c : Tree)
    → bytes_eq k (key t) ≡ false
    → insert_into n t ≡ some (n', c)
    → (find k (items n') ≡ find k (items n)) × (key n' ≡ key n)
insert_into-other k (object j ts) t n' c e q =
    let same : (object j (append ts t), t) ≡ (n', c) = some-injective _ _ q in
    (
      sym (ap (λ (x : Tree × Tree). find k (items x.0)) same) ∙ find-append_other k ts t e,
      sym (ap (λ (x : Tree × Tree). key x.0) same),
    )
insert_into-other k (number j m) t n' c e q = absurd (ground (arith, q))
insert_into-other k (text j m) t n' c e q = absurd (ground (arith, q))
insert_into-other k (boolean j m) t n' c e q = absurd (ground (arith, q))
insert_into-other k (array j m) t n' c e q = absurd (ground (arith, q))

find-replace :
    (n : Tree) (u v : Tree)
    → lookup n "to" ≡ some u
    → key v ≡ key u
    → lookup (replace n "to" v) "to" ≡ some v
find-replace (object j ts) u v h e = find-put (codes "to") ts u v h e
find-replace (number j m) u v h e = absurd (ground (arith, h))
find-replace (text j m) u v h e = absurd (ground (arith, h))
find-replace (boolean j m) u v h e = absurd (ground (arith, h))
find-replace (array j ts) u v h e = find-put (codes "to") ts u v h e

insert-key : (n t : Tree) → key (insert n t) ≡ key n
insert-key (object j ts) t = refl
insert-key (number j m) t = refl
insert-key (text j m) t = refl
insert-key (boolean j m) t = refl
insert-key (array j m) t = refl

all_users : bytes_eq (codes "all") (codes "users") ≡ false
unfolding bytes_eq
all_users = refl

ready-Items : Items ready
ready-Items = record {
  added_object =
      λ n n' c e h q. insert_into-object (codes "to") n (object (codes "to") leaf) n' c refl h q;
  added_array = λ n n' c e h q. (
    insert_into-object (codes "users") n (array (codes "users") leaf) n' c refl h q,
    (insert_into-other (codes "all") n (array (codes "users") leaf) n' c all_users q).0,
  );
  added_flag_key = λ n n' e q.
      ap some (sym (ap key (some-injective _ _ q)) ∙ insert-key n (boolean (codes "all") false));
  added_array_key = λ n n' c e q.
      ap some (insert_into-other (codes "all") n (array (codes "users") leaf) n' c all_users q).1;
  changed = λ n u v h k. find-replace n u v h (some-injective _ _ k);
}

-- {"to": {"all": true}}
abbrev to_all : Tree
to_all = object [] (more (object (codes "to") (more (boolean (codes "all") true) leaf)) leaf)

-- The same with `"users": []`.
abbrev to_all_and_none : Tree
to_all_and_none = object [] (
    more
      (object (codes "to")
        (more (boolean (codes "all") true) (more (array (codes "users") leaf) leaf)))
      leaf)

lets_through : (validate_to_object ready 8 to_all world).0 ≡ some to_all_and_none
unfolding validate_to_object ◌>>=◌ done call bytes_eq
lets_through = refl

validate_to_object-HasTargets_example : HasTargets ready 8 to_all_and_none
validate_to_object-HasTargets_example =
    validate_to_object-HasTargets ready ready-Items 8 to_all to_all_and_none world lets_through

-- {"to": {}} is for nobody.
refuses :
    (validate_to_object ready 8 (object [] (more (object (codes "to") leaf) leaf)) world).0 ≡ none
unfolding validate_to_object ◌>>=◌ done call bytes_eq
refuses = refl
