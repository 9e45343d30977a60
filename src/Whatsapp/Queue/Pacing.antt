-- ===== src/Whatsapp/Queue/Pacing.antt =====
-- The spacing of the sends of src/modules/whatsapp/services/whatsapp-queue.service.ts, and what a
-- waiting worker owes to it.
use nestjs_starter.Prelude.{
  ℕ, ◌+◌, ◌≤◌, ◌≡◌, refl, Bool, true, false, Option, none, some, List, [], ◌∷◌, arith,
}
use nestjs_starter.Whatsapp.Queue.{Job, Send, Worker, idle, sleeping, sending}

abbrev pub is_busy : Worker → Bool
is_busy idle = false
is_busy (sleeping job until) = true
is_busy (sending job begun) = true

-- every send began at least the gap after the one before it
abbrev pub Spaced : ℕ → List Send → Type 0
Spaced gap [] = Unit
Spaced gap (x ∷ []) = Unit
Spaced gap (x ∷ y ∷ rest) = (y.begun + gap ≤ x.begun) × Spaced gap (y ∷ rest)

-- the latest send began by the instant
abbrev pub BegunBy : List Send → ℕ → Type 0
BegunBy [] t = Unit
BegunBy (x ∷ rest) t = x.begun ≤ t

-- What the wait for the next send rests on.
abbrev pub Paced : ℕ → Worker → Option ℕ → List Send → Type 0
Paced gap idle none sends = sends ≡ []
Paced gap idle (some last) sends = BegunBy sends last
Paced gap (sleeping job until) none sends = ⊥
Paced gap (sleeping job until) (some last) sends = BegunBy sends last × (last + gap ≤ until)
Paced gap (sending job begun) last [] = ⊥
Paced gap (sending job begun) last (x ∷ rest) = x.begun ≡ begun

-- a wait for the timer has a last send, and ends no earlier than the gap after it
pub Paced-sleeping :
    (gap : ℕ) (w : Worker) (last : Option ℕ) (sends : List Send) (job : Job) (until : ℕ)
    → w ≡ sleeping job until
    → Paced gap w last sends
    → (l : ℕ) × (last ≡ some l) × BegunBy sends l × (l + gap ≤ until)
Paced-sleeping gap idle last sends job until e p = absurd (cc)
Paced-sleeping gap (sleeping j u) none sends job until e p = absurd p
Paced-sleeping gap (sleeping j u) (some l) sends job until e p =
    let same : u ≡ until = cc in (l, refl, p.0, omega (arith, same, p.1))
Paced-sleeping gap (sending j b) last sends job until e p = absurd (cc)

-- a send in flight is the latest in the log
pub Paced-sending :
    (gap : ℕ) (w : Worker) (last : Option ℕ) (sends : List Send) (job : Job) (begun now : ℕ)
    → w ≡ sending job begun
    → begun ≤ now
    → Paced gap w last sends
    → BegunBy sends now
Paced-sending gap idle last sends job begun now e h p = absurd (cc)
Paced-sending gap (sleeping j u) last sends job begun now e h p = absurd (cc)
Paced-sending gap (sending j b) last [] job begun now e h p = absurd p
Paced-sending gap (sending j b) last (x ∷ rest) job begun now e h p =
    let same : b ≡ begun = cc in omega (arith, same, p, h)

pub idle-Paced :
    (gap : ℕ) (w : Worker) (last : Option ℕ) (sends : List Send)
    → w ≡ idle
    → Paced gap w last sends
    → Paced gap idle last sends
idle-Paced gap idle last sends e p = p
idle-Paced gap (sleeping j u) last sends e p = absurd (cc)
idle-Paced gap (sending j b) last sends e p = absurd (cc)

pub idle_of_not_busy : (w : Worker) → is_busy w ≡ false → w ≡ idle
idle_of_not_busy idle e = refl
idle_of_not_busy (sleeping j u) e = absurd (cc)
idle_of_not_busy (sending j b) e = absurd (cc)
