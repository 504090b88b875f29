-- ===== src/Slime/Client/Numbering.antt =====
-- How the datagrams of a client are numbered.
use everything_imu.Prelude.{
  ℕ, ◌+◌, ◌%◌, ◌^◌, ◌≡◌, refl, sym, ap, ◌∙◌, List, [], ◌∷◌, ◌++◌, take, drop, from_be, arith,
}
use mathlib.Core.Path.{subst}
use everything_imu.Slime.Client.{SlimeClient, Outgoing, own, echo}
use everything_imu.Slime.Client.Motion.{IsMotion}
use everything_imu.Slime.Client.Tasks.{Call, sends_motion}

-- Bytes 4 to 12 of a datagram.
abbrev pub seq_of : List ℕ → ℕ
seq_of bytes = from_be (take 8 (drop 4 bytes))

-- The client's own datagrams are numbered one after the other; what it echoes is not counted.
abbrev pub IsNumbered : ℕ → List Outgoing → Type 0
IsNumbered n [] = Unit {0}
IsNumbered n (own bytes ∷ out) = (seq_of bytes ≡ n % 2 ^ 64) × IsNumbered (n + 1) out
IsNumbered n (echo bytes ∷ out) = IsNumbered n out

abbrev pub owned : List Outgoing → ℕ
owned [] = 0
owned (own bytes ∷ out) = owned out + 1
owned (echo bytes ∷ out) = owned out

-- The arguments of a motion call lie in the ranges of their Rust types.
abbrev pub IsCall : Call → Type 0
IsCall (sends_motion sensor_id rotation accel s s') = IsMotion sensor_id rotation accel
IsCall _ = Unit {0}

abbrev pub AreCalls : List Call → Type 0
AreCalls [] = Unit {0}
AreCalls (call ∷ calls) = IsCall call × AreCalls calls

pub push_own :
    (n : ℕ) (out : List Outgoing) (bytes : List ℕ)
    → IsNumbered n out
    → seq_of bytes ≡ (n + owned out) % 2 ^ 64
    → IsNumbered n (out ++ (own bytes ∷ []))
push_own n [] bytes h e = (e ∙ omega arith, tt)
push_own n (own x ∷ out) bytes (hx, h) e = (hx, push_own (n + 1) out bytes h (e ∙ omega arith))
push_own n (echo x ∷ out) bytes h e = push_own n out bytes h e

pub push_echo :
    (n : ℕ) (out : List Outgoing) (bytes : List ℕ)
    → IsNumbered n out
    → IsNumbered n (out ++ (echo bytes ∷ []))
push_echo n [] bytes h = h
push_echo n (own x ∷ out) bytes (hx, h) = (hx, push_echo (n + 1) out bytes h)
push_echo n (echo x ∷ out) bytes h = push_echo n out bytes h

pub owned-push_own :
    (out : List Outgoing) (bytes : List ℕ) → owned (out ++ (own bytes ∷ [])) ≡ owned out + 1
owned-push_own [] bytes = refl
owned-push_own (own x ∷ out) bytes = omega (arith, owned-push_own out bytes)
owned-push_own (echo x ∷ out) bytes = owned-push_own out bytes

pub owned-push_echo :
    (out : List Outgoing) (bytes : List ℕ) → owned (out ++ (echo bytes ∷ [])) ≡ owned out
owned-push_echo [] bytes = refl
owned-push_echo (own x ∷ out) bytes = omega (arith, owned-push_echo out bytes)
owned-push_echo (echo x ∷ out) bytes = owned-push_echo out bytes

pub record IsSequenced (c : SlimeClient) : Type 0 where
  pub numbered : IsNumbered 0 c.outgoing
  pub next : c.seq ≡ owned c.outgoing % 2 ^ 64

-- Another state with the same counter and datagrams.
pub keep :
    (c c' : SlimeClient)
    → c.seq ≡ c'.seq
    → c.outgoing ≡ c'.outgoing
    → IsSequenced c
    → IsSequenced c'
keep c c' s o h = record {
  numbered = subst (IsNumbered 0) o h.numbered;
  next = sym s ∙ h.next ∙ ap (λ out. owned out % 2 ^ 64) o;
}

-- A datagram that carries the counter leaves, and the counter moves on.
pub advance :
    (c c' : SlimeClient) (bytes : List ℕ)
    → seq_of bytes ≡ c.seq
    → c'.seq ≡ (c.seq + 1) % 2 ^ 64
    → c'.outgoing ≡ c.outgoing ++ (own bytes ∷ [])
    → IsSequenced c
    → IsSequenced c'
advance c c' bytes e s o h = record {
  numbered =
      subst (IsNumbered 0) (sym o)
        (push_own 0 c.outgoing bytes h.numbered (e ∙ h.next ∙ omega arith));
  next =
      s
      ∙ omega (arith, h.next, owned-push_own c.outgoing bytes)
      ∙ ap (λ out. owned out % 2 ^ 64) (sym o);
}
