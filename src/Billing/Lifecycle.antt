-- ===== src/Billing/Lifecycle.antt =====
-- What one refresh does to one payment.
use locker.Prelude.{ℕ, ◌+◌, ◌≤◌, ◌≡◌, ◌⊎◌, ◌↔◌, true, false, some, arith}
use locker.Domain.{PaymentStatus, pending, Payment}
use locker.Store.{seconds, is_before}
use locker.Rental.Pay.{refresh}

-- The moves of a payment's status.
pub data Moves : PaymentStatus → PaymentStatus → Type 0 where
  stays : {s : PaymentStatus} → Moves s s
  settles : Moves pending PaymentStatus.paid
  lapses : Moves pending PaymentStatus.expired

-- A refresh finds a payment paid exactly if it was paid before, or was pending for five seconds or
-- more with its time not over.
pub refresh-paid :
    (now : ℕ) (p : Payment)
    → ((refresh now p).status ≡ PaymentStatus.paid) ↔ (
        (p.status ≡ PaymentStatus.paid)
        ⊎ ((p.status ≡ pending)
            × (p.created_at + seconds 5 ≤ now)
            × (is_before p.payment_expires_at now ≡ false)))
unfolding refresh
refresh-paid now p = (λ h. ground arith, λ h. ground arith)

pub refresh-Moves : (now : ℕ) (p : Payment) → Moves p.status (refresh now p).status
unfolding refresh
refresh-Moves now p = grind (arith, stays, settles, lapses)

-- A pending payment whose time is over five seconds or more after it was made becomes `expired`,
-- and is given a time of payment all the same.
pub refresh-expired_paid_at :
    (now : ℕ) (p : Payment)
    → p.status ≡ pending
    → is_before p.payment_expires_at now ≡ true
    → p.created_at + seconds 5 ≤ now
    → ((refresh now p).status ≡ PaymentStatus.expired) × ((refresh now p).paid_at ≡ some now)
unfolding refresh
refresh-expired_paid_at now p e over old = ground arith
