-- ===== src/Http/Ports.antt =====
-- The choice of the port in daemon/src/http_server.cpp.
use vca.Prelude.{
  ℕ, zero, suc, ◌+◌, ◌≤◌, ◌<◌, ◌≡◌, refl, Bool, true, false, leb, Bool-cases, ◌⊎◌, inl, inr, arith,
}
use vca.Http.Server.{Serving, serves, throws, serve}

-- The first port that is free, among so many.
pub record IsFirstFree (binds : ℕ → Bool) (first n port : ℕ) : Type 0 where
  pub least : first ≤ port
  pub most : port < first + n
  pub free : binds port ≡ true
  pub taken : ¬ ((q : ℕ) × (first ≤ q) × (q < port) × (binds q ≡ true))

-- The first so many ports are all taken.
abbrev pub NoneFree : (ℕ → Bool) → ℕ → ℕ → Type 0
NoneFree binds first n = ¬ ((q : ℕ) × (first ≤ q) × (q < first + n) × (binds q ≡ true))

le-cases : (first q : ℕ) → first ≤ q → (q ≡ first) ⊎ (first + 1 ≤ q)
le-cases first q h = ground arith

abbrev Served : (ℕ → Bool) → ℕ → ℕ → Serving → Type 0
Served binds first n o =
    ((port : ℕ) × (o ≡ serves port) × IsFirstFree binds first n port)
    ⊎ ((o ≡ throws) × NoneFree binds first n)

-- The first port is taken, and more are to be tried.
Served-later :
    (binds : ℕ → Bool) (first n : ℕ) (o : Serving)
    → binds first ≡ false
    → Served binds (first + 1) n o
    → Served binds first (suc n) o
Served-later binds first n o e (inl (port, same, r)) = inl (port, same, later)
  where
    below : (q : ℕ) → first ≤ q → q < port → ¬ (binds q ≡ true)
    below q le lt f = elim (le-cases first q le) [
      | inl s ↦ cc (s, e, f)
      | inr l ↦ r.taken (q, l, lt, f)
    ]

    later : IsFirstFree binds first (suc n) port
    later = record {
      least = omega (arith, r.least);
      most = omega (arith, r.most);
      free = r.free;
      taken = λ t. let (q, le, lt, f) = t in below q le lt f;
    }
Served-later binds first n o e (inr (same, none_free)) = inr (
  same,
  λ t.
      let (q, le, lt, f) = t in
      elim (le-cases first q le) [
        | inl s ↦ cc (s, e, f)
        | inr l ↦ none_free (q, l, omega (arith, lt), f)
      ],
)

at_once :
    (binds : ℕ → Bool) (port n : ℕ) → 0 < n → binds port ≡ true → IsFirstFree binds port n port
at_once binds port n pos e = record {
  least = omega arith;
  most = omega arith;
  free = e;
  taken = λ t. let (q, le, lt, f) = t in absurd (omega (arith, le, lt));
}

serve-Served :
    (binds : ℕ → Bool) (fuel n retry port : ℕ)
    → n < fuel
    → retry + suc n ≡ 100
    → Served binds port (suc n) (serve binds fuel retry port)
unfolding serve
serve-Served binds zero n retry port enough h = absurd (omega arith)
serve-Served binds (suc fuel) zero retry port enough h = elim (Bool-cases (binds port)) [
  | inl e ↦ rw e (inl (port, refl, at_once binds port 1 (omega arith) e))
  | inr e ↦
      let last : leb 100 (retry + 1) ≡ true = ground arith in
      rw (e, last)
        (inr (
          refl,
          λ t.
              let (q, le, lt, f) = t in
              elim (le-cases port q le) [
                | inl s ↦ cc (s, e, f)
                | inr l ↦ absurd (omega (arith, l, lt))
              ],
        ))
]
serve-Served binds (suc fuel) (suc n) retry port enough h = elim (Bool-cases (binds port)) [
  | inl e ↦ rw e (inl (port, refl, at_once binds port (suc (suc n)) (omega arith) e))
  | inr e ↦
      let more : leb 100 (retry + 1) ≡ false = ground arith in
      rw (e, more)
        (Served-later binds port (suc n) _ e
          (serve-Served binds fuel n (retry + 1) (port + 1) (omega arith) (omega arith)))
]

-- The loop ends, after a hundred rounds at most. Of the hundred ports from the configured one on,
-- the server is made at the first that is free, and the exception is thrown on only if all of them
-- are taken.
pub serve-first :
    (binds : ℕ → Bool) (fuel port : ℕ)
    → 100 ≤ fuel
    → ((p : ℕ) × (serve binds fuel 0 port ≡ serves p) × IsFirstFree binds port 100 p)
      ⊎ ((serve binds fuel 0 port ≡ throws) × NoneFree binds port 100)
serve-first binds fuel port enough = serve-Served binds fuel 99 0 port (omega arith) (omega arith)
