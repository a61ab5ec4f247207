-- ===== src/Scan/Leases.antt =====
-- A query's budget under any run of acquisitions and releases, and row ids that stay apart.
use packet_quapture.Base.{
  ℕ, zero, suc, ◌+◌, ◌-◌, ◌*◌, ◌/◌, ◌^◌, ◌≤◌, ◌<◌, ◌≡◌, ◌∙◌, refl, Bool, true, false, some, arith,
  Bool-cases, inl, inr,
}
use native.Mathlib.Omega.{div_any}
use packet_quapture.Scan.Budget.{
  BudgetKind, worker_bytes, stream_budget, flow_budget, inventory_budget, ScanQueryBudget, acquire,
  release, row_id_fits, scan_row_id,
}

-- What the reservations of a query do to its budget, whose `leases` are held: a granted reservation
-- holds one, a refused one none, and only a held one is released.
pub data Holds (kind : BudgetKind) (limit : ℕ) : ScanQueryBudget → ℕ → Type 0 where
  fresh : Holds kind limit (record { kind = kind; limit = limit; used = 0 }) 0
  refused :
      {b b' : ScanQueryBudget} {leases : ℕ}
      → Holds kind limit b leases
      → (reserved : Bool) → acquire b reserved ≡ some (false, b')
      → Holds kind limit b' leases
  granted :
      {b b' : ScanQueryBudget} {leases : ℕ}
      → Holds kind limit b leases
      → (reserved : Bool) → acquire b reserved ≡ some (true, b')
      → Holds kind limit b' (suc leases)
  returned :
      {b b' : ScanQueryBudget} {leases : ℕ}
      → Holds kind limit b (suc leases)
      → release b ≡ some b'
      → Holds kind limit b' leases

worker_bytes_bound : (kind : BudgetKind) → worker_bytes kind ≤ 2 ^ 27
unfolding worker_bytes
worker_bytes_bound stream_budget = omega arith
worker_bytes_bound flow_budget = omega arith
worker_bytes_bound inventory_budget = omega arith

acquire_granted :
    (b b' : ScanQueryBudget) (reserved : Bool)
    → b.limit < 2 ^ 64
    → acquire b reserved ≡ some (true, b')
    → (b'.used ≡ b.used + worker_bytes b.kind)
      × (b'.used ≤ b.limit)
      × (b'.limit ≡ b.limit)
      × (b'.kind ≡ b.kind)
unfolding acquire
acquire_granted b b' reserved small e = ground (arith, e, worker_bytes_bound b.kind)

acquire_refused :
    (b b' : ScanQueryBudget) (reserved : Bool) → acquire b reserved ≡ some (false, b') → b' ≡ b
unfolding acquire
acquire_refused b b' reserved e = ground (arith, e)

release_returned :
    (b b' : ScanQueryBudget)
    → release b ≡ some b'
    → (worker_bytes b.kind ≤ b.used)
      × (b'.used ≡ b.used - worker_bytes b.kind)
      × (b'.limit ≡ b.limit)
      × (b'.kind ≡ b.kind)
unfolding release
release_returned b b' e = ground (arith, e)

-- After any run, the used memory is one worker's for each lease, and within the limit.
pub Holds-used :
    (kind : BudgetKind) (limit : ℕ) (b : ScanQueryBudget) (leases : ℕ)
    → limit < 2 ^ 64
    → Holds kind limit b leases
    → (b.used ≡ leases * worker_bytes kind) × (b.used ≤ limit) × (b.limit ≡ limit) × (b.kind ≡ kind)
Holds-used kind limit b leases small fresh = (grind arith, omega arith, refl, refl)
Holds-used kind limit b leases small (refused {b = c} h reserved e) =
    let (u, l, m, k) = Holds-used kind limit c leases small h in
    rw (acquire_refused c b reserved e) (u, l, m, k)
Holds-used kind limit b (suc leases) small (granted {b = c} h reserved e) =
    let (u, l, m, k) = Holds-used kind limit c leases small h in
    let (v, w, n, j) = acquire_granted c b reserved (rw m small) e in
    let v' : b.used ≡ c.used + worker_bytes kind = rw k at v in
    (grind (arith, u, v'), omega (arith, w, m), n ∙ m, j ∙ k)
Holds-used kind limit b leases small (returned {b = c} h e) =
    let (u, l, m, k) = Holds-used kind limit c (suc leases) small h in
    let (f, v, n, j) = release_returned c b e in
    let v' : b.used ≡ c.used - worker_bytes kind = rw k at v in
    (grind (arith, u, v'), omega (arith, v', l), n ∙ m, j ∙ k)

product_unique : (a b c f g : ℕ) → f < c → g < c → a * c + f ≡ b * c + g → (a ≡ b) × (f ≡ g)
product_unique zero zero c f g hf hg e = grind arith
product_unique zero (suc b) c f g hf hg e = grind arith
product_unique (suc a) zero c f g hf hg e = grind arith
product_unique (suc a) (suc b) c f g hf hg e =
    let ih = product_unique a b c f g hf hg in grind (arith, ih)

product_le : (a b c : ℕ) → a ≤ b → a * c ≤ b * c
product_le zero b c h = grind arith
product_le (suc a) zero c h = absurd (omega arith)
product_le (suc a) (suc b) c h = grind (arith, product_le a b c (omega arith))

-- The guard leaves room for the product.
row_id_room :
    (n f c : ℕ)
    → c < 2 ^ 64
    → row_id_fits n f c ≡ true
    → (0 < n) × (f < c) × ((n - 1) * c + f + 1 < 2 ^ 64)
unfolding row_id_fits
row_id_room n f c small e =
    let room = 2 ^ 64 - 1 - (f + 1) in
    let q : (n - 1 ≤ room / c) × (0 < n) × (f < c) = ground (arith, e) in
    let p = product_le (n - 1) (room / c) c q.0 in
    let d = div_any room c in (q.1, q.2, grind (arith, p, d, q.2))

scan_row_id-some :
    (n f c x : ℕ)
    → c < 2 ^ 64
    → scan_row_id n f c ≡ some x
    → (0 < n) × (f < c) × (x ≡ (n - 1) * c + f + 1) × (x < 2 ^ 64)
unfolding scan_row_id
scan_row_id-some n f c x small e = elim (Bool-cases (row_id_fits n f c)) [
  | inl g ↦
      let (p, q, r) = row_id_room n f c small g in
      (p, q, ground (arith, e, g, r), ground (arith, e, g, r))
  | inr g ↦ absurd (ground (arith, e, g))
]

-- For one number of files, no two rows of the scan have the same id, which fits in 64 bits.
pub scan_row_id-injective :
    (n m f g c x : ℕ)
    → c < 2 ^ 64
    → scan_row_id n f c ≡ some x
    → scan_row_id m g c ≡ some x
    → (n ≡ m) × (f ≡ g) × (x < 2 ^ 64)
scan_row_id-injective n m f g c x small d e =
    let (a, b, p, s) = scan_row_id-some n f c x small d in
    let (a', b', p', _) = scan_row_id-some m g c x small e in
    let (u, v) = product_unique (n - 1) (m - 1) c f g b b' (omega (arith, p, p')) in
    (omega (arith, u, a, a'), v, s)
