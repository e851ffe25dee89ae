-- ===== src/Older/PaymentService.antt =====
-- internal/service/payment_service.go.
use locker.Prelude.{ℕ, [], Text, codes}
use locker.Domain.{session_is, SessionStatus, PaymentStatus}
use locker.Older.{Act, ◌>>=◌, ◌>>◌, pure, fail_if, calls}
use locker.Older.Rows.{Driver, PaymentEntity}
use locker.Older.Sessions.{session_by_id}
use locker.Older.Payments.{add_payment}

module _ {Amount : Type 0} (d : Driver Amount) where
  abbrev pub intent : ℕ → Amount → PaymentEntity Amount
  intent session amount = record {
    id = 0;
    session_id = session;
    amount = amount;
    currency = codes "RUB";
    status = PaymentStatus.pending;
    external_payment_id = [];
    provider = codes "yookassa";
    qr_payload = [];
    paid_at = 0;
    created_at = 0;
    updated_at = 0;
    raw_callback_json = [];
  }

  -- The payload of the QR code goes into the answer alone.
  unfoldable pub create_payment_intent : ℕ → Amount → Act (PaymentEntity Amount)
  create_payment_intent id amount = do
    session ← calls (session_by_id d id)
    fail_if (session_is session.status SessionStatus.paid) (codes "session already paid")
    payment ← calls (add_payment d (intent id amount))
    pure (record (intent id amount) { id = payment; qr_payload = codes "https://example.com/pay/" })

-- The callback is accepted and dropped.
unfoldable pub handle_payment_callback : Text → PaymentStatus → Act (Unit {0})
handle_payment_callback external status = pure tt
