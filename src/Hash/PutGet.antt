-- ===== src/Hash/PutGet.antt =====
-- What a caller of a/hash.h sees: a value that was put is read back.
use alib4c.Common.{◌<◌, ◌≡◌, ◌≢◌, refl, ap, ◌∙◌, ◌⊎◌, inl, inr, ℤ, true, Option, none, some}
use alib4c.World.{Ptr, World, Returns, ok, head_or_false, rest}
use alib4c.Error.{success}
use alib4c.Error.Live.{IsLive}
use alib4c.Hash.{HashTable, a_hash_put, a_hash_get}
use alib4c.Hash.Extending.{IsValid, map_of}
use alib4c.Hash.Putting.{update, Stored, Refused}
use alib4c.Hash.Methods.{or_null, a_hash_put-Puts, get-map_of}

Stored-of :
    (h : HashTable) (key val : Ptr) (out : ℤ × HashTable)
    → Stored h key val out ⊎ Refused h out
    → out.0 ≡ success
    → Stored h key val out
Stored-of h key val out (inl s) e = s
Stored-of h key val out (inr r) e = cc r.code

-- a table whose map holds a key is there
there_of_reads : (h : HashTable) (q x : Ptr) → map_of h q ≡ some x → h.table ≢ none
there_of_reads h q x e n = go h.table n e
  where
    go : (o : Option _) → o ≡ none → map_of (record h { table = o }) q ≡ some x → ⊥
    go none n' e' = cc
    go (some cells) n' e' = cc

-- Where malloc answers twice and the error stack is live, a_hash_put on a valid table of fewer than
-- 30 bits reports success and leaves a valid table, on which a_hash_get returns `val` under each key
-- equal to `key`, and under any other key what the map held before.
pub a_hash_get-put :
    (h : HashTable) (key val : Ptr) (w : World)
    → IsValid h
    → h.bits < 30
    → IsLive w.errors
    → head_or_false w.mallocs ≡ true
    → head_or_false (rest w.mallocs) ≡ true
    → Returns (a_hash_put h key val w) λ out v.
      (out.0 ≡ success)
      × IsValid out.1
      × (out.1.table ≢ none)
      × ((q : Ptr) (u : World)
          → a_hash_get out.1 q u ≡ ok (or_null (update h.equal_func (map_of h) key (some val) q)) u)
a_hash_get-put h key val w v small live one two =
    let (out, w', run, p) = a_hash_put-Puts h key val w v small live in
    let code = p.answered one two in
    let s = Stored-of h key val out p.outcome code in
    let mine : map_of out.1 key ≡ some val = s.reads key ∙ rw (v.hashed.eq_refl key) refl in
    let there = there_of_reads out.1 key val mine in
    (
      out,
      w',
      run,
      (
        code,
        p.valid,
        there,
        λ q u. get-map_of out.1 q u p.valid there ∙ ap (λ x. ok (or_null x) u) (s.reads q),
      ),
    )
