-- ===== src/Json/Parsed.antt =====
-- What chat_json_parse_object of main/src/common/utils.c lets into the program.
use mathlib.Core.Option.{some-injective}
use esp32_web_chat.Common.{
  ℕ, ◌≡◌, refl, subst, Bool, true, false, not, ◌&&◌, Option, none, some, Bytes, drop, arith,
  if◌then◌else◌,
}
use esp32_web_chat.Utf8.{valid_utf8}
use esp32_web_chat.JsonScan.{may_parse, outside}
use esp32_web_chat.JsonScan.Depth.{IsNested, may_parse-IsNested}
use esp32_web_chat.Platform.{Platform, World, ◌>>=◌, done, call, on_option}
use esp32_web_chat.Json.{all_blank, json_has_duplicate_keys, accepts, chat_json_parse_object}
use esp32_web_chat.Json.Keys.{Within, HasDistinctKeys, json_has_duplicate_keys_iff}

-- cJSON makes at most a level of nodes for each bracket that is open, and one for what stands inside.
pub record Levels (p : Platform) : Type 0 where
  pub levels :
      (payload : Bytes) (e : p.Env) (n : p.Node) (end : ℕ)
      → IsNested 0 outside payload
      → (p.parse payload e).0 ≡ some (n, end)
      → Within p 17 n

pub record IsParsed (p : Platform) (payload : Bytes) (e : p.Env) (root : p.Node) : Type 0 where
  pub utf8 : valid_utf8 payload ≡ true
  pub nested : IsNested 0 outside payload
  pub object : p.is_object root ≡ true
  pub distinct : HasDistinctKeys p root
  -- Where cJSON stopped when it read the payload as this node, and that only blanks follow.
  pub end : ℕ
  pub stopped : (p.parse payload e).0 ≡ some (root, end)
  pub blanks : all_blank (drop end payload) ≡ true

all_true : (a b c : Bool) → (a && b && not c) ≡ true → (a ≡ true) × (b ≡ true) × (c ≡ false)
all_true a b c h = ground arith

module _ (p : Platform) (cjson : Levels p) where
  open p use {Env, Node, parse}

  accepted-IsParsed :
      (payload : Bytes) (e : Env) (root : Node) (end : ℕ)
      → (valid_utf8 payload ≡ true) × IsNested 0 outside payload
      → Within p 17 root
      → (parse payload e).0 ≡ some (root, end)
      → accepts p 17 payload (root, end) ≡ true
      → IsParsed p payload e root
  unfolding accepts
  accepted-IsParsed payload e root end text within read ok =
      let a =
        all_true (p.is_object root) (all_blank (drop end payload))
          (json_has_duplicate_keys p 17 root) ok in
      record {
        utf8 = text.0;
        nested = text.1;
        object = a.0;
        distinct = (json_has_duplicate_keys_iff p 17 root within).0 a.2;
        end = end;
        stopped = read;
        blanks = a.1;
      }

  read-IsParsed :
      (payload : Bytes) (e : Env) (o : Option (Node × ℕ)) (w : World Env) (root : Node)
      → (parse payload e).0 ≡ o
      → (valid_utf8 payload ≡ true) × IsNested 0 outside payload
      → ((n : Node) (end : ℕ) → o ≡ some (n, end) → Within p 17 n)
      → (on_option o
          (done none)
          (λ read. if accepts p 17 payload read then done (some read.0) else done none)
          w).0
        ≡ some root
      → IsParsed p payload e root
  unfolding done
  read-IsParsed payload e none w root read text within = λ q. absurd (ground (arith, q))
  read-IsParsed payload e (some (n, end)) w root read text within =
      choose (accepts p 17 payload (n, end)) refl
    where
      choose :
          (b : Bool)
          → accepts p 17 payload (n, end) ≡ b
          → ((if b then done (some n) else done none) w).0 ≡ some root
          → IsParsed p payload e root
      choose true ok q =
          subst (IsParsed p payload e) (some-injective _ _ q)
            (accepted-IsParsed payload e n end text (within n end refl) read ok)
      choose false ok q = absurd (ground (arith, q))

  -- Where cJSON makes at most a level of nodes for each bracket that is open and one for what
  -- stands inside, an object that chat_json_parse_object gives is the one that cJSON read from the
  -- payload, with nothing but blanks after the place where cJSON stopped; the payload is valid
  -- UTF-8 whose brackets match and are at most 16 deep; it is an object, and in every object that
  -- it is or has inside, every member has a name and no two have the same.
  pub chat_json_parse_object-IsParsed :
      (payload : Bytes) (w : World Env) (root : Node)
      → (chat_json_parse_object p payload w).0 ≡ some root
      → IsParsed p payload w.env root
  unfolding chat_json_parse_object ◌>>=◌ call done
  chat_json_parse_object-IsParsed payload w root = choose (may_parse payload) refl
    where
      choose :
          (b : Bool)
          → may_parse payload ≡ b
          → ((if not b
                then done none
                else call (parse payload) >>= λ parsed.
                    on_option parsed
                      (done none)
                      (λ read. if accepts p 17 payload read then done (some read.0) else done none))
              w).0
            ≡ some root
          → IsParsed p payload w.env root
      choose false ok q = absurd (ground (arith, q))
      choose true ok q =
          let text = may_parse-IsNested payload ok in
          read-IsParsed payload w.env (parse payload w.env).0 _ root refl text
            (λ n end e. cjson.levels payload w.env n end text.1 e) q
