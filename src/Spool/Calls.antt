-- ===== src/Spool/Calls.antt =====
-- Any calls of the methods, in the order in which the lock admits them, each with its own clock.
use superlily.Base.{ℕ, suc, ◌≡◌, Option, none, some, String, List, [], ◌∷◌, Option-cases, inl, inr}
use superlily.Spool.{
  Payload, SpoolRecord, SpoolIdentity, Spool, Clock, Libraries, compact, find_identity,
}
use superlily.Spool.Append.{append_event}
use superlily.Spool.Delivery.{Receipt, acknowledge, retry, quarantine}
use superlily.Spool.Queue.{next_pending, count_pending}
use superlily.Spool.Order.{IsOrdered}
use superlily.Spool.Changes.{
  acknowledge-IsOrdered, retry-IsOrdered, quarantine-IsOrdered, compact-IsOrdered,
}
use superlily.Spool.Keeps.{append-IsOrdered, next_pending-IsOrdered}

pub data Call : Type 0 where
  append : Payload → String → Call
  acknowledge_record : SpoolRecord → Receipt → Call
  retry_record : SpoolRecord → String → ℕ → Call
  quarantine_sequence : ℕ → String → Call
  take_pending : Call
  compact_records : Call

abbrev spool_after : Option (Option SpoolRecord × Spool) → Spool → Spool
spool_after none s = s
spool_after (some (r, t)) s = t

-- the spool after a call; `next_pending` has one round for each pending row and one more
unfoldable pub perform : Libraries → Clock → Call → Spool → Spool
perform x c (append payload key) s = (append_event x c payload key s).1
perform x c (acknowledge_record r receipt) s = (acknowledge c r receipt s).1
perform x c (retry_record r error base) s = retry c r error base s
perform x c (quarantine_sequence n error) s = quarantine c n error s
perform x c take_pending s = spool_after (next_pending (suc (count_pending s.records)) x c s) s
perform x c compact_records s = compact c s

unfoldable pub perform_all : Libraries → List (Clock × Call) → Spool → Spool
perform_all x [] s = s
perform_all x ((c, call) ∷ rest) s = perform_all x rest (perform x c call s)

module _ (P : List SpoolIdentity → Type 0)
    (grows : (i : SpoolIdentity) (is : List SpoolIdentity)
      → find_identity i.idempotency_key is ≡ none
      → P is
      → P (i ∷ is))
    (x : Libraries) where
  perform-keeps :
      (c : Clock) (call : Call) (s : Spool) → IsOrdered P s → IsOrdered P (perform x c call s)
  unfolding perform
  perform-keeps c (append payload key) s h = append-IsOrdered P grows x c payload key s h
  perform-keeps c (acknowledge_record r receipt) s h = acknowledge-IsOrdered P c r receipt s h
  perform-keeps c (retry_record r error base) s h = retry-IsOrdered P c r error base s h
  perform-keeps c (quarantine_sequence n error) s h = quarantine-IsOrdered P c n error s h
  perform-keeps c take_pending s h =
      elim (Option-cases (next_pending (suc (count_pending s.records)) x c s)) [
        | inl out ↦ rw out h
        | inr ((r, t), found) ↦
            rw found
              (next_pending-IsOrdered P grows (suc (count_pending s.records)) x c s t r h found)
      ]
  perform-keeps c compact_records s h = compact-IsOrdered P c s h

  pub perform_all-keeps :
      (calls : List (Clock × Call)) (s : Spool)
      → IsOrdered P s
      → IsOrdered P (perform_all x calls s)
  unfolding perform_all
  perform_all-keeps [] s h = h
  perform_all-keeps ((c, call) ∷ rest) s h =
      perform_all-keeps rest (perform x c call s) (perform-keeps c call s h)

abbrev pub IsSound : Spool → Type 0
IsSound = IsOrdered (λ is. Unit)

-- Every sequence of calls keeps a spool in order that is in order before it: the sequence numbers of the
-- rows, and those of the identities, are below the next one to issue and strictly descend to the older, so
-- that none is issued twice; each row has its identity, with the same key, sequence and hash; and no key
-- has two identities.
pub perform_all-IsSound :
    (x : Libraries) (calls : List (Clock × Call)) (s : Spool)
    → IsSound s
    → IsSound (perform_all x calls s)
perform_all-IsSound x calls s h = perform_all-keeps (λ is. Unit) (λ i is _ _. tt) x calls s h
