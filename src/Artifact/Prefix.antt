-- ===== src/Artifact/Prefix.antt =====
-- The bisection of `_largest_prefix` in src/assistant_agent/agent/artifact_capture.py.
use assistant_agent.Base.{
  ℕ, zero, suc, ◌+◌, ◌-◌, ◌/◌, ◌≤◌, ◌<◌, [], ◌∷◌, length, take, ltb, leb, arith, Bool-cases, inl,
  inr, ltb→lt, leb→le,
}
use assistant_agent.ToolResult.{Text}
use assistant_agent.Artifact.{utf8_size, bisect, largest_prefix}

pub prefix_size-monotone :
    (text : Text) (n m : ℕ) → n ≤ m → utf8_size (take n text) ≤ utf8_size (take m text)
unfolding utf8_size
prefix_size-monotone text zero m h = omega arith
prefix_size-monotone [] (suc n) m h = omega arith
prefix_size-monotone (c ∷ text) (suc n) zero h = ground arith
prefix_size-monotone (c ∷ text) (suc n) (suc m) h =
    omega (arith, prefix_size-monotone text n m (omega (arith, h)))

-- The bounds close in: what is below fits, what is above the upper bound does not.
abbrev Bracket : Text → ℕ → ℕ → ℕ → Type 0
Bracket buffer max_bytes low high =
    (low ≤ high)
    × (utf8_size (take low buffer) ≤ max_bytes)
    × ((m : ℕ) → high < m → m ≤ length buffer → max_bytes < utf8_size (take m buffer))

abbrev pub Largest : Text → ℕ → ℕ → ℕ → Type 0
Largest buffer max_bytes bound n =
    (n ≤ bound)
    × (utf8_size (take n buffer) ≤ max_bytes)
    × ((m : ℕ) → m ≤ length buffer → utf8_size (take m buffer) ≤ max_bytes → m ≤ n)

settled :
    (buffer : Text) (max_bytes low high : ℕ)
    → high ≤ low
    → Bracket buffer max_bytes low high
    → Largest buffer max_bytes high low
settled buffer max_bytes low high h (o, s, a) = (
  o,
  s,
  λ m l k. elim (Bool-cases (ltb high m)) [
    | inl e ↦ omega (arith, k, a m (ltb→lt high m e) l)
    | inr e ↦ ground (arith, e, h)
  ],
)

-- With the middle excluded, all above it are.
lowered :
    (buffer : Text) (max_bytes mid high : ℕ)
    → max_bytes < utf8_size (take mid buffer)
    → (m : ℕ) → mid - 1 < m
    → m ≤ length buffer
    → max_bytes < utf8_size (take m buffer)
lowered buffer max_bytes mid high h m k l =
    omega (arith, h, prefix_size-monotone buffer mid m (omega (arith, k)))

Largest-weaken :
    (buffer : Text) (max_bytes less more n : ℕ)
    → less ≤ more
    → Largest buffer max_bytes less n
    → Largest buffer max_bytes more n
Largest-weaken buffer max_bytes less more n h (o, s, a) = (omega (arith, h, o), s, a)

bisect-Largest :
    (fuel : ℕ) (buffer : Text) (max_bytes low high : ℕ)
    → high - low ≤ fuel
    → Bracket buffer max_bytes low high
    → Largest buffer max_bytes high (bisect fuel buffer max_bytes low high)
unfolding bisect
bisect-Largest zero buffer max_bytes low high h k =
    settled buffer max_bytes low high (omega (arith, h)) k
bisect-Largest (suc fuel) buffer max_bytes low high h (o, s, a) =
    let mid = (low + high + 1) / 2 in
    elim (Bool-cases (ltb low high)) [
      | inr e ↦ rw (bisect, e) (settled buffer max_bytes low high (ground (arith, e)) (o, s, a))
      | inl e ↦
          let apart : low < high = ltb→lt low high e in
          elim (Bool-cases (leb (utf8_size (take mid buffer)) max_bytes)) [
            | inl f ↦
                rw (bisect, e, f)
                  (bisect-Largest fuel buffer max_bytes mid high (omega (arith, h, apart))
                    (omega (arith, apart), leb→le _ _ f, a))
            | inr f ↦
                rw (bisect, e, f)
                  (Largest-weaken buffer max_bytes (mid - 1) high _ (omega (arith, apart)) (
                    bisect-Largest fuel buffer max_bytes low (mid - 1) (omega (arith, h, apart)) (
                      omega (arith, apart),
                      s,
                      lowered buffer max_bytes mid high (ground (arith, f)),
                    )))
          ]
    ]

-- The bisection ends at the longest prefix that fits: it fits, and no longer one does.
pub largest_prefix-Largest :
    (buffer : Text) (max_bytes : ℕ)
    → Largest buffer max_bytes (length buffer) (largest_prefix buffer max_bytes)
unfolding largest_prefix utf8_size
largest_prefix-Largest buffer max_bytes =
    bisect-Largest (length buffer) buffer max_bytes 0 (length buffer) (omega arith)
      (omega arith, omega arith, λ m h k. omega (arith, h, k))
