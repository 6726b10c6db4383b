-- ===== src/Core/Transaction.antt =====
-- crates/postproject-core/src/transaction.rs: the states of a transaction. An operation returns its
-- result with the lifecycle after it.
mod Tests
use Prim.Native.String.{String}
use postproject.Base.{
  ℕ, ◌≡◌, refl, sym, ap, subst, List, [], ◌∷◌, Result, ok, err, Error, conflict, arith,
}

pub data TransactionState : Type 0 where
  opened committed rolled_back : TransactionState

pub record TransactionLifecycle : Type 0 where
  pub id : ℕ
  pub state : TransactionState

-- `TransactionLifecycle::with_id`.
abbrev pub with_id : ℕ → TransactionLifecycle
with_id id = record { id = id; state = opened }

abbrev pub closed_error : Error
closed_error = record { kind = conflict; message = "transaction is already closed" }

abbrev pub ensure_open_in : TransactionState → Result (Unit {0})
ensure_open_in opened = ok tt
ensure_open_in _ = err closed_error

-- `ensure_open`.
abbrev pub ensure_open : TransactionLifecycle → Result (Unit {0})
ensure_open t = ensure_open_in t.state

abbrev mark_checked :
    TransactionState
    → TransactionLifecycle
    → Result (Unit {0})
    → Result (Unit {0}) × TransactionLifecycle
mark_checked state t (ok _) = (ok tt, record t { state = state })
mark_checked state t (err e) = (err e, t)

unfoldable pub mark_committed : TransactionLifecycle → Result (Unit {0}) × TransactionLifecycle
mark_committed t = mark_checked committed t (ensure_open t)

unfoldable pub mark_rolled_back : TransactionLifecycle → Result (Unit {0}) × TransactionLifecycle
mark_rolled_back t = mark_checked rolled_back t (ensure_open t)

-- The two ways to close a transaction, and the state after each.
pub data Closing : Type 0 where
  commit rollback : Closing

unfoldable pub close : Closing → TransactionLifecycle → Result (Unit {0}) × TransactionLifecycle
close commit t = mark_committed t
close rollback t = mark_rolled_back t

unfoldable pub close_all : List Closing → TransactionLifecycle → TransactionLifecycle
close_all [] t = t
close_all (c ∷ cs) t = close_all cs (close c t).1

abbrev pub closed_by : Closing → TransactionState
closed_by commit = committed
closed_by rollback = rolled_back

closed-close :
    (first c : Closing) (id : ℕ)
    → close c (record { id = id; state = closed_by first })
      ≡ (err closed_error, record { id = id; state = closed_by first })
unfolding close mark_committed mark_rolled_back
closed-close commit commit id = refl
closed-close commit rollback id = refl
closed-close rollback commit id = refl
closed-close rollback rollback id = refl

closed-close_all :
    (first : Closing) (cs : List Closing) (id : ℕ)
    → close_all cs (record { id = id; state = closed_by first })
      ≡ record { id = id; state = closed_by first }
unfolding close_all
closed-close_all first [] id = refl
closed-close_all first (c ∷ cs) id = rw (closed-close first c id) (closed-close_all first cs id)

opened-close :
    (c : Closing) (id : ℕ) → close c (with_id id) ≡ (ok tt, record { id = id; state = closed_by c })
unfolding close mark_committed mark_rolled_back
opened-close commit id = refl
opened-close rollback id = refl

-- The first commit or rollback of a new transaction succeeds and decides its state: whatever is
-- attempted after it, the state stays, and a further commit, rollback or mutation is a conflict.
pub close-once :
    (id : ℕ) (first next : Closing) (attempts : List Closing)
    → let after = close_all (first ∷ attempts) (with_id id) in
      ((close first (with_id id)).0 ≡ ok tt)
      × (after ≡ record { id = id; state = closed_by first })
      × (close next after ≡ (err closed_error, after))
      × (ensure_open after ≡ err closed_error)
unfolding close_all
close-once id first next attempts = (
  ap (λ o. o.0) (opened-close first id),
  after_first,
  subst (λ t. close next t ≡ (err closed_error, t)) (sym after_first) (closed-close first next id),
  subst (λ t. ensure_open t ≡ err closed_error) (sym after_first) (closed first),
)
  where
    after_first :
        close_all (first ∷ attempts) (with_id id) ≡ record { id = id; state = closed_by first }
    after_first = rw (opened-close first id) (closed-close_all first attempts id)

    closed : (c : Closing) → ensure_open_in (closed_by c) ≡ err closed_error
    closed commit = refl
    closed rollback = refl
