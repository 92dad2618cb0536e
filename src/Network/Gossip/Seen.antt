-- ===== src/Network/Gossip/Seen.antt =====
-- The cache of seen messages: its size, and how long an id stays in it.
use mathlib.Core.List.{append_assoc}
use border.Prelude.{
  ℕ, suc, ◌+◌, ◌≤◌, ◌<◌, ◌≡◌, refl, String, true, false, none, List, [], ◌∷◌, ◌++◌, length, ltb,
  arith, Bool-cases, inl, inr, if◌then◌else◌, length-append, eq_iff,
}
use border.Prelude.Dict.{contains, contains-append}
use border.Runtime.{Fields}
use border.Network.Gossip.{seen_cache_max, Envelope, Router, trim, mark_seen, receive, broadcast}

length-trim : (most : ℕ) (s : List String) → length (trim most s) ≤ most
unfolding trim
length-trim most [] = omega arith
length-trim most (x ∷ s) = ground (arith, length-trim most s)

pub mark_seen-le : (id : String) (s : List String) → length (mark_seen id s) ≤ seen_cache_max
unfolding mark_seen
mark_seen-le id s = length-trim seen_cache_max _

-- What is left of the front when the list ends with `ys`.
abbrev front : ℕ → List String → List String → List String
front most [] ys = []
front most (x ∷ xs) ys =
    let rest = front most xs ys in if ltb most (length (x ∷ xs ++ ys)) then rest else x ∷ xs

trim-keeps :
    (most : ℕ) (xs ys : List String)
    → length ys ≤ most
    → trim most (xs ++ ys) ≡ front most xs ys ++ ys
unfolding trim
trim-keeps most [] [] h = refl
trim-keeps most [] (y ∷ ys) h = ground arith
trim-keeps most (x ∷ xs) ys h = ground (arith, trim-keeps most xs ys h)

-- At most `n` ids stand behind `id` in the cache.
abbrev IsRecent : ℕ → String → List String → Type 0
IsRecent n id s =
    (before : List String) × (after : List String) × (s ≡ before ++ id ∷ after) × (length after ≤ n)

IsRecent-contains : (n : ℕ) (id : String) (s : List String) → IsRecent n id s → contains id s ≡ true
IsRecent-contains n id s (before, after, e, h) =
    rw (e, contains-append id before (id ∷ after)) (ground (arith, eq_iff id id))

mark_seen-IsRecent :
    (n : ℕ) (id other : String) (s : List String)
    → suc n < seen_cache_max
    → IsRecent n id s
    → IsRecent (suc n) id (mark_seen other s)
unfolding mark_seen
mark_seen-IsRecent n id other s small (before, after, e, h) = elim (Bool-cases (contains other s)) [
  | inl there ↦ rw there (
    front seen_cache_max before (id ∷ after),
    after,
    rw e (trim-keeps _ before (id ∷ after) (omega arith)),
    omega arith,
  )
  | inr new ↦ rw new (
    front seen_cache_max before (id ∷ after ++ other ∷ []),
    after ++ other ∷ [],
    rw (e, append_assoc before (id ∷ after) (other ∷ []))
        (trim-keeps _ before (id ∷ after ++ other ∷ [])
          (omega (arith, length-append {0} after (other ∷ [])))),
    omega (arith, length-append {0} after (other ∷ [])),
  )
]

module _ {S : Type 0} where
  -- The router after a list of envelopes.
  unfoldable pub receive_all : List Envelope → Router S → Router S
  receive_all [] r = r
  receive_all (e ∷ es) r = receive_all es (receive e r).router

  receive-IsRecent :
      (n : ℕ) (id : String) (e : Envelope) (r : Router S)
      → suc n < seen_cache_max
      → IsRecent n id r.seen
      → IsRecent (suc n) id (receive e r).router.seen
  unfolding receive
  receive-IsRecent n id e r small h = elim (Bool-cases (contains e.msg_id r.seen)) [
    | inl there ↦ rw there (h.0, h.1, h.2, omega (arith, h.3))
    | inr new ↦ rw new (mark_seen-IsRecent n id e.msg_id r.seen small h)
  ]

  receive_all-IsRecent :
      (es : List Envelope) (n : ℕ) (id : String) (r : Router S)
      → n + length es < seen_cache_max
      → IsRecent n id r.seen
      → IsRecent (n + length es) id (receive_all es r).seen
  unfolding receive_all
  receive_all-IsRecent [] n id r small h = (h.0, h.1, h.2, omega (arith, h.3))
  receive_all-IsRecent (e ∷ es) n id r small h =
      let rest =
        receive_all-IsRecent es (suc n) id (receive e r).router (omega arith)
          (receive-IsRecent n id e r (omega arith) h) in
      (rest.0, rest.1, rest.2, omega (arith, rest.3))

  receive-new :
      (e : Envelope) (r : Router S)
      → contains e.msg_id r.seen ≡ false
      → IsRecent 0 e.msg_id (receive e r).router.seen
  unfolding receive mark_seen
  receive-new e r new = rw new (
    front seen_cache_max r.seen (e.msg_id ∷ []),
    [],
    trim-keeps _ r.seen (e.msg_id ∷ []) (omega arith),
    omega arith,
  )

  -- After a new envelope and fewer than 2048 others, an envelope with the id of the first is not fresh,
  -- whatever else it holds: it is not handled, not sent on, and changes nothing.
  pub receive_once :
      (first again : Envelope) (es : List Envelope) (r : Router S)
      → contains first.msg_id r.seen ≡ false
      → length es < seen_cache_max
      → again.msg_id ≡ first.msg_id
      → (after : Router S) → after ≡ receive_all es (receive first r).router
      → receive again after ≡ record { fresh = false; sent = none; router = after }
  unfolding receive
  receive_once first again es r new few same after e =
      let recent =
        receive_all-IsRecent es 0 first.msg_id (receive first r).router (omega arith)
          (receive-new first r new) in
      let there : contains again.msg_id after.seen ≡ true =
        rw (same, e) (IsRecent-contains _ first.msg_id _ recent) in
      rw there refl

  -- No envelope and no broadcast leaves more than 2048 ids in the cache, if no more were there.
  pub seen_bounded :
      (e : Envelope) (make_id : String → Fields → String) (t : String) (payload : Fields) (ttl : ℕ)
      (r : Router S)
      → length r.seen ≤ seen_cache_max
      → (length (receive e r).router.seen ≤ seen_cache_max)
        × (length (broadcast make_id t payload ttl r).1.seen ≤ seen_cache_max)
  unfolding receive broadcast
  seen_bounded e make_id t payload ttl r h =
      (ground (arith, mark_seen-le e.msg_id r.seen), mark_seen-le (make_id t payload) r.seen)
