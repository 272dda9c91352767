-- ===== src/Payments/Tests/Runs.antt =====
-- Runs of the payments manager, and its theorems at those inputs.
use lexe_public.Payments.Tests.{
  sample_library, sample_invoice, sample_payment, sample_purpose, sample_data, empty_data,
  sample_history, sample_send, sample-IsSound, send-IsSound,
}
use lexe_public.Base.{if_pos, inl, arith}
use lexe_public.Base.Maps.{insert}
use lexe_public.Ids.{LxPaymentId, LxPaymentId-discrete, PaymentStatus}
use lexe_public.Payments.Payment.{payment_id, payment_status, onchain_send}
use lexe_public.Payments.Onchain.{TxConfStatus}
use lexe_public.Payments.Manager.{
  check_payment_claimable, get_pending, is_finalized, check_new_payment,
}
use lexe_public.Payments.Manager.Events.{registers, broadcasts, Db, upsert, write_call, write_calls}
use lexe_public.Payments.Manager.Handlers.{
  new_payment, create_commit, update_onchain_confs, pending_onchain_ids,
}
use lexe_public.Payments.Manager.Receipts.{receive_completes, claiming_copy}
use lexe_public.Payments.Manager.Restart.{new_data, restart_recovers, Answers}
use lexe_public.Payments.Manager.Rounds.{conf_round_succeeds}
use lexe_public.Payments.Manager.Confs.{AllDistinct}
use lexe_public.Base.{ℕ, true, false, none, some, List, [], ◌∷◌, ◌≡◌, refl, ok, err, ℕ_discrete}
use lexe_public.Base.Maps.{get, contains}
use lexe_public.Ids.{Bytes, Bytes-discrete, LxPaymentId-discrete, lightning}
use lexe_public.Payments.Library.{persist_failed}
use lexe_public.Payments.Inbound.{iip_check_payment_claimed, try_from_purpose}
use lexe_public.Payments.Payment.{Payment, inbound_invoice}
use lexe_public.Payments.Manager.{PaymentsData, check_payment_claimed}
use lexe_public.Payments.Manager.Handlers.{
  payment_claimed, payment_claimable, persist_commit, persist_payment, claim_funds,
}
use lexe_public.Payments.Manager.Events.{Event, claimed, run, step}
use lexe_public.Payments.Manager.Storage.{Follows, Refines, final_row}
use lexe_public.Payments.Manager.Claims.{ClaimOutcome, TurnsAway, claimable_protocol}
use lexe_public.Payments.Manager.Histories.{empty-Refines, run-Follows, never_claimed_twice}
use lexe_public.Payments.Manager.Errors.{Untouched, step_error-Untouched}

run-Follows_example :
    Follows []
      (run sample_library empty_data [] sample_history).0
      (run sample_library empty_data [] sample_history).1
run-Follows_example =
    run-Follows sample_library empty_data [] sample_history empty-Refines
      (sample-IsSound, (tt, (tt, (tt, tt))))

claimed_ok : (payment_claimed sample_data (1 ∷ []) 1000 sample_purpose 22 true).result ≡ ok tt
unfolding payment_claimed persist_commit try_from_purpose check_payment_claimed
    iip_check_payment_claimed get contains LxPaymentId-discrete Bytes-discrete ℕ_discrete
claimed_ok = refl

never_claimed_twice_example :
    TurnsAway
      (run sample_library sample_data []
        (claimed (1 ∷ []) 1000 sample_purpose 22 true ∷ sample_history)).0
      (1 ∷ [])
      (payment_claimable sample_library
        (run sample_library sample_data []
          (claimed (1 ∷ []) 1000 sample_purpose 22 true ∷ sample_history)).0
        (1 ∷ [])
        2000
        sample_purpose
        30
        true)
never_claimed_twice_example =
    never_claimed_twice sample_library sample_data [] (1 ∷ []) 1000 sample_purpose 22 sample_history
      2000 sample_purpose 30 true claimed_ok

claimable_protocol_example :
    ClaimOutcome sample_data
      (1 ∷ [])
      (try_from_purpose sample_purpose)
      (λ p. check_payment_claimable sample_library sample_data (1 ∷ []) 1000 p 20)
      true
      (payment_claimable sample_library sample_data (1 ∷ []) 1000 sample_purpose 20 true)
claimable_protocol_example =
    claimable_protocol sample_library sample_data (1 ∷ []) 1000 sample_purpose 20 true

failing_step :
    (step sample_library sample_data (claimed (1 ∷ []) 1000 sample_purpose 22 false)).result
    ≡ err persist_failed
unfolding step payment_claimed persist_commit try_from_purpose check_payment_claimed
    iip_check_payment_claimed get contains LxPaymentId-discrete Bytes-discrete ℕ_discrete
failing_step = refl

step_error-Untouched_example :
    Untouched sample_data []
      (step sample_library sample_data (claimed (1 ∷ []) 1000 sample_purpose 22 false))
step_error-Untouched_example =
    step_error-Untouched sample_data [] sample_library
      (claimed (1 ∷ []) 1000 sample_purpose 22 false) failing_step

sample_get : get_pending (lightning (1 ∷ [])) sample_data ≡ some sample_payment
unfolding get LxPaymentId-discrete Bytes-discrete ℕ_discrete
sample_get = refl

sample_open : is_finalized (lightning (1 ∷ [])) sample_data ≡ false
unfolding contains
sample_open = refl

sample_pending : payment_status sample_payment ≡ PaymentStatus.pending
unfolding payment_status
sample_pending = refl

receive_completes_example :
    ((payment_claimable sample_library sample_data (1 ∷ []) 1000 sample_purpose 20 true).calls
      ≡ persist_payment (inbound_invoice (claiming_copy sample_library sample_invoice 1000)) true
        ∷ claim_funds (3 ∷ [])
        ∷ [])
    × ((payment_claimable sample_library sample_data (1 ∷ []) 1000 sample_purpose 20 true).result
        ≡ ok tt)
    × ((payment_claimed
          (payment_claimable sample_library sample_data (1 ∷ []) 1000 sample_purpose 20 true).after
          (1 ∷ [])
          1000
          sample_purpose
          22
          true).result
        ≡ ok tt)
    × (is_finalized
          (lightning (1 ∷ []))
          (payment_claimed
            (payment_claimable sample_library sample_data
              (1 ∷ [])
              1000
              sample_purpose
              20
              true).after
            (1 ∷ [])
            1000
            sample_purpose
            22
            true).after
        ≡ true)
receive_completes_example =
    receive_completes sample_library sample_data sample_invoice 1000 20 22 sample_get sample_open
      sample_pending refl

-- An on-chain send that was registered, and its memory.
abbrev send_history : List (Event ℕ Bytes)
send_history = registers (onchain_send sample_send) true ∷ []

abbrev send_data : PaymentsData ℕ Bytes
send_data = (run sample_library empty_data [] send_history).0

-- Between the locks the send is broadcasted.
abbrev between : List (Event ℕ Bytes)
between = broadcasts (LxPaymentId.onchain_send (4 ∷ [])) sample_send.txid true ∷ []

conf_round_succeeds_example :
    AllDistinct (pending_onchain_ids send_data.pending)
    × ((update_onchain_confs
          (run sample_library send_data (run sample_library empty_data [] send_history).1 between).0
          (pending_onchain_ids send_data.pending)
          (TxConfStatus.in_best_chain 6 ∷ [])
          9
          true).result
        ≡ ok tt)
conf_round_succeeds_example =
    conf_round_succeeds sample_library send_data (run sample_library empty_data [] send_history).1
      between (TxConfStatus.in_best_chain 6 ∷ []) 9
      (run-Follows sample_library empty_data [] send_history empty-Refines
        (send-IsSound, tt)).refines
      (tt, tt) (refl, tt)

abbrev one_row : Db ℕ Bytes
one_row = (lightning (1 ∷ []), sample_payment) ∷ []

one_row-run : (run sample_library empty_data [] (registers sample_payment true ∷ [])).1 ≡ one_row
unfolding run step new_payment create_commit check_new_payment get contains payment_id write_call
    write_calls upsert insert
one_row-run = refl

one_row-Answers : Answers one_row (sample_payment ∷ []) []
unfolding get contains payment_id payment_status
one_row-Answers = record {
  rows = (sample_row, tt);
  complete = λ id p e h. inl (one_id id p e);
  finals = λ id. one_final id;
}
  where
    sample_row :
        (get LxPaymentId-discrete (payment_id sample_payment) one_row ≡ some sample_payment)
        × (payment_status sample_payment ≡ PaymentStatus.pending)
    sample_row = (
      if_pos (LxPaymentId-discrete (lightning (1 ∷ [])) (lightning (1 ∷ []))) refl
          (some sample_payment) none,
      refl,
    )

    one_id :
        (id : LxPaymentId) (p : Payment ℕ Bytes)
        → get LxPaymentId-discrete id one_row ≡ some p
        → payment_id sample_payment ≡ id
    one_id id p e = ground arith

    one_final : (id : LxPaymentId) → false ≡ final_row (get LxPaymentId-discrete id one_row)
    one_final id = ground arith

restart_recovers_example :
    (get_pending (lightning (1 ∷ [])) (new_data (sample_payment ∷ []) [])
      ≡ get_pending
          (lightning (1 ∷ []))
          (run sample_library empty_data [] (registers sample_payment true ∷ [])).0)
    × (is_finalized (lightning (1 ∷ [])) (new_data (sample_payment ∷ []) [])
        ≡ is_finalized
            (lightning (1 ∷ []))
            (run sample_library empty_data [] (registers sample_payment true ∷ [])).0)
    × Refines
        (new_data (sample_payment ∷ []) [])
        (run sample_library empty_data [] (registers sample_payment true ∷ [])).1
restart_recovers_example =
    restart_recovers sample_library empty_data [] (registers sample_payment true ∷ [])
      (sample_payment ∷ []) [] (lightning (1 ∷ [])) empty-Refines (sample-IsSound, tt)
      (rw one_row-run one_row-Answers)
