-- ===== src/Network/Gossip/Hops.antt =====
-- An envelope on its way from node to node.
use border.Prelude.{ℕ, suc, ◌+◌, ◌<◌, ◌≡◌, refl, some, arith}
use border.Network.Gossip.{Envelope, Router, receive}

-- `Travels S e n e'`: a node sent `e`, and after `n` further nodes sent it on it is `e'`.
pub data Travels (S : Type 0) (e : Envelope) : ℕ → Envelope → Type 0 where
  originated : Travels S e 0 e
  passed_on :
      {n : ℕ} {e₁ e₂ : Envelope} (r : Router S)
      → Travels S e n e₁
      → (receive e₁ r).sent ≡ some e₂
      → Travels S e (suc n) e₂

-- What stays of an envelope, and what is left of its `ttl`.
pub record Spends (e : Envelope) (n : ℕ) (e' : Envelope) : Type 0 where
  pub same_id : e'.msg_id ≡ e.msg_id
  pub same_type : e'.msg_type ≡ e.msg_type
  pub same_payload : e'.payload ≡ e.payload
  pub left : e'.ttl + n ≡ e.ttl
  pub alive : 0 < n → 0 < e'.ttl

module _ {S : Type 0} where
  receive-Spends : (e e' : Envelope) (r : Router S) → (receive e r).sent ≡ some e' → Spends e 1 e'
  unfolding receive
  receive-Spends e e' r h = ground arith

  -- An envelope that nodes sent on n times keeps its id, its type and its payload and has n less to
  -- live, and something is left; so it is sent on fewer times than its ttl says.
  pub Travels-Spends : {e : Envelope} {n : ℕ} {e' : Envelope} → Travels S e n e' → Spends e n e'
  Travels-Spends originated = record {
    same_id = refl;
    same_type = refl;
    same_payload = refl;
    left = omega arith;
    alive = λ h. absurd (omega arith);
  }
  Travels-Spends (passed_on {e₁} {e₂} r t h) =
      let before = Travels-Spends t in
      let step = receive-Spends e₁ e₂ r h in
      record {
        same_id = cc (before.same_id, step.same_id);
        same_type = cc (before.same_type, step.same_type);
        same_payload = cc (before.same_payload, step.same_payload);
        left = omega (arith, before.left, step.left);
        alive = λ p. step.alive (omega arith);
      }
