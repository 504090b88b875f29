-- ===== src/Slime/Client/History.antt =====
-- Histories of handshake events.
use everything_imu.Prelude.{
  ◌⊎◌, ℕ, ◌+◌, ◌%◌, ◌^◌, ◌≡◌, refl, List, [], ◌∷◌, ◌++◌, Bool, true, false, not,
}
use everything_imu.Slime.Client.{SlimeClient, HandshakeEvent}

abbrev pub one_if : Bool → ℕ
one_if true = 1
one_if false = 0

-- Events that change the flag in turn, starting from `flag`, each with the number of resets up to it.
abbrev pub IsHistory : Bool → ℕ → List HandshakeEvent → Type 0
IsHistory flag resets [] = Unit {0}
IsHistory flag resets (e ∷ es) =
    (e.confirmed ≡ not flag)
    × (e.reset_count ≡ (resets + one_if flag) % 2 ^ 64)
    × IsHistory (not flag) (resets + one_if flag) es

-- The flag and the number of resets behind such events.
abbrev pub flag_after : Bool → List HandshakeEvent → Bool
flag_after flag [] = flag
flag_after flag (e ∷ es) = flag_after (not flag) es

abbrev pub resets_after : Bool → ℕ → List HandshakeEvent → ℕ
resets_after flag resets [] = resets
resets_after flag resets (e ∷ es) = resets_after (not flag) (resets + one_if flag) es

pub history_push :
    (flag : Bool) (resets : ℕ) (es : List HandshakeEvent) (e : HandshakeEvent)
    → IsHistory flag resets es
    → e.confirmed ≡ not (flag_after flag es)
    → e.reset_count ≡ (resets_after flag resets es + one_if (flag_after flag es)) % 2 ^ 64
    → IsHistory flag resets (es ++ (e ∷ []))
history_push flag resets [] e h f r = (f, r, tt)
history_push flag resets (x ∷ es) e (hf, hr, h) f r =
    (hf, hr, history_push (not flag) (resets + one_if flag) es e h f r)

pub flag_after-push :
    (flag : Bool) (es : List HandshakeEvent) (e : HandshakeEvent)
    → flag_after flag (es ++ (e ∷ [])) ≡ not (flag_after flag es)
flag_after-push flag [] e = refl
flag_after-push flag (x ∷ es) e = flag_after-push (not flag) es e

pub resets_after-push :
    (flag : Bool) (resets : ℕ) (es : List HandshakeEvent) (e : HandshakeEvent)
    → resets_after flag resets (es ++ (e ∷ []))
      ≡ resets_after flag resets es + one_if (flag_after flag es)
resets_after-push flag resets [] e = refl
resets_after-push flag resets (x ∷ es) e = resets_after-push (not flag) (resets + one_if flag) es e

pub record IsLinked (c : SlimeClient) : Type 0 where
  pub history : IsHistory false 0 c.events
  pub flag : c.handshake_confirmed ≡ flag_after false c.events
  pub resets : c.handshake_reset_count ≡ resets_after false 0 c.events % 2 ^ 64
  pub bundled : (c.server_supports_bundle ≡ false) ⊎ (c.handshake_confirmed ≡ true)
