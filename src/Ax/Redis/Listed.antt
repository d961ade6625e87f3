-- ===== src/Ax/Redis/Listed.antt =====
-- The listings of the Redis store (engine/ax/internal/store/redis/store.go) against its single reads.
use Prim.Native.String.{◌++◌}
use Prim.Native.String.append
use task_a.Prelude.{
  String, Bool, ℤ, code, nat_eq, true, false, List, [], ◌∷◌, map, Option, none, some, Result, ok,
  err, ◌==◌, ◌||◌, ◌≡◌, ◌≢◌, refl, sym, ap, ◌∙◌, inl, inr, Result-cases,
}
use task_a.Ax.Redis.Client.{Client, ClientError, Codec, IsRedis, RedisError, pass, values}
use task_a.Ax.Redis.Records.{Layout, decode, readable, get_record, list_records, fetch}
use task_a.Ax.Redis.Implements.{or_default-eq}
use task_a.Ax.Redis.Keys.{or_default, member, split_member, key_of_member}

abbrev pub has_colon : String → Bool
has_colon String.[] = false
has_colon (String.◌∷◌ c s) = nat_eq (code c) 58 || has_colon s

||-eq-false : (a b : Bool) → (a || b) ≡ false → (a ≡ false) × (b ≡ false)
||-eq-false true b h = cc
||-eq-false false b h = (refl, h)

-- A member of the index of all records is split into the atespace and the name it was made of, where
-- the atespace has no colon.
pub split_member-member :
    (atespace name : String)
    → has_colon atespace ≡ false
    → split_member (member atespace name) ≡ some (atespace, name)
split_member-member String.[] name h = rw (append.nil (":" ++ name), colon name) refl
  where
    colon : (name : String) → split_member (":" ++ name) ≡ some ("", name)
    colon name = rw (append.cons ":" "" name, append.nil name) refl
split_member-member (String.◌∷◌ c s) name h =
    let (here, rest) = ||-eq-false (nat_eq (code c) 58) (has_colon s) h in
    rw (append.cons c s (":" ++ name), here, split_member-member s name rest) refl

module _ {A : Type 0} where
  abbrev pub add : Result RedisError A → List A → List A
  add (err e) xs = xs
  add (ok x) xs = x ∷ xs

  -- The values that are there, in their order.
  abbrev pub collect : (String → Result RedisError A) → List String → List A
  collect f [] = []
  collect f (name ∷ names) = add (f name) (collect f names)

module _ {A : Type 0} (j : Codec A) where
  readable-cons :
      (o : Option String) (os : List (Option String))
      → readable j (o ∷ os) ≡ add (decode j o) (readable j os)
  readable-cons none os = refl
  readable-cons (some text) os = elim (Result-cases (j.unmarshal text)) [
    | inl (x, e) ↦ rw (e) refl
    | inr (e, q) ↦ rw (q) refl
  ]

key_of_member-member :
    (key : String → String → String) (atespace name : String)
    → has_colon atespace ≡ false
    → key_of_member key (member atespace name) ≡ key atespace name
key_of_member-member key atespace name h =
    rw (key_of_member, split_member-member atespace name h) refl

-- Reads are answered.
pub record IsUp {W : Type 0} (c : Client W) : Type 0 where
  pub got : (k : String) (w : W) → (o : Option String) × ((c.get k w).0 ≡ ok o)
  pub many : (ks : List String) (w : W) → (os : List (Option String)) × ((c.mget ks w).0 ≡ ok os)

module _ {W A : Type 0} (c : Client W) (j : Codec A) (l : Layout)
    (texts : W → String → Option String) (redis : IsRedis c texts) (up : IsUp c) where
  passed :
      {B C : Type 0} (f : B → Result RedisError C) (b : B) (x : Result ClientError B × W)
      → x.0 ≡ ok b
      → (pass (λ a v. (f a, v)) x).0 ≡ f b
  passed f b (err e, v) h = cc (h)
  passed f b (ok a, v) h = ap f (cc (h))

  pub get_record-eq :
      (atespace name : String) (w : W)
      → atespace ≢ ""
      → (get_record c j l atespace name w).0 ≡ decode j (texts w (l.key atespace name))
  unfolding get_record
  get_record-eq atespace name w given =
      let (o, e) = up.got (l.key (or_default atespace) name) w in
      passed (decode j) o (c.get (l.key (or_default atespace) name) w) e
      ∙ ap (decode j) (redis.gets _ w o e)
      ∙ ap (λ b. decode j (texts w (l.key b name))) (or_default-eq atespace given)

  readable-values :
      (atespace : String) (names : List String) (f g : String → Option String)
      → has_colon atespace ≡ false
      → ((k : String) → g k ≡ f k)
      → readable j (values (map (key_of_member l.key) (map (member atespace) names)) g)
        ≡ collect (λ name. decode j (f (l.key atespace name))) names
  readable-values atespace [] f g plain same = refl
  readable-values atespace (n ∷ ns) f g plain same =
      readable-cons j (g (key_of_member l.key (member atespace n))) _
      ∙ ap
          (λ o.
            add (decode j o)
              (readable j (values (map (key_of_member l.key) (map (member atespace) ns)) g)))
          (same _ ∙ ap f (key_of_member-member l.key atespace n plain))
      ∙ ap (add (decode j (f (l.key atespace n)))) (readable-values atespace ns f g plain same)

  fetch-eq :
      (atespace : String) (names : List String) (v w : W)
      → has_colon atespace ≡ false
      → ((k : String) → texts v k ≡ texts w k)
      → (fetch c j l (map (member atespace) names) v).0
        ≡ ok (collect (λ name. decode j (texts w (l.key atespace name))) names)
  fetch-eq atespace [] v w plain same = refl
  fetch-eq atespace (n ∷ ns) v w plain same =
      let ks = map (key_of_member l.key) (map (member atespace) (n ∷ ns)) in
      let (os, e) = up.many ks v in
      passed (λ vs. ok (readable j vs)) os (c.mget ks v) e
      ∙ ap (λ vs. ok (readable j vs)) (redis.mgets ks v os e)
      ∙ ap ok (readable-values atespace (n ∷ ns) (texts w) (texts v) plain same)

  collect-eq :
      (f g : String → Result RedisError A) (names : List String)
      → ((n : String) → f n ≡ g n)
      → collect f names ≡ collect g names
  collect-eq f g [] h = refl
  collect-eq f g (n ∷ ns) h =
      ap (λ r. add r (collect f ns)) (h n) ∙ ap (add (g n)) (collect-eq f g ns h)

  -- A page of an atespace's records holds, in the order of the index, what the single reads of its names
  -- give, without the names that a read does not find or cannot decode. The atespace is given and has no
  -- colon; reads are answered, and Redis is taken to keep its values.
  pub list_records-eq :
      (atespace : String) (start stop : ℤ) (names : List String) (w : W)
      → ((atespace == "") || (atespace == "*")) ≡ false
      → has_colon atespace ≡ false
      → (c.zrevrange (l.atespace_index atespace) start stop w).0 ≡ ok names
      → (list_records c j l atespace start stop w).0
        ≡ ok (collect (λ name. (get_record c j l atespace name w).0) names)
  unfolding list_records
  list_records-eq atespace start stop names w one plain answered = rw (one) (
      continue names (c.zrevrange (l.atespace_index atespace) start stop w) answered
      ∙ fetch-eq atespace names (c.zrevrange (l.atespace_index atespace) start stop w).1 w plain
          (λ k. redis.zrevrange_keeps (l.atespace_index atespace) k start stop w)
      ∙ ap ok (collect-eq _ _ names (λ n. sym (get_record-eq atespace n w given))))
    where
      given : atespace ≢ ""
      given e = cc (rw (e) at one)

      continue :
          (names : List String) (x : Result ClientError (List String) × W)
          → x.0 ≡ ok names
          → (pass (λ names. fetch c j l (map (member atespace) names)) x).0
            ≡ (fetch c j l (map (member atespace) names) x.1).0
      continue names (err e, v) h = cc (h)
      continue names (ok ms, v) h = ap (λ ms. (fetch c j l (map (member atespace) ms) v).0) (cc (h))
