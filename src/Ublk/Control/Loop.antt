-- ===== src/Ublk/Control/Loop.antt =====
-- The loop that waits for a completion ends, and answers with the oldest completion (control.rs).
use duende.Prelude.{
  ℕ, zero, suc, ◌+◌, ◌-◌, ◌*◌, ◌/◌, ◌≤◌, ◌<◌, ◌≡◌, refl, ◌∙◌, Bool, true, false, Option, none, some,
  arith, ltb, Option-cases, Bool-cases, inl, inr,
}
use duende.Core.Types.{ℤ}
use duende.Ublk.Sys.{ublk_u_cmd_stop_dev, ublk_u_cmd_del_dev}
use duende.Ublk.Error.{Result, err, timeout, io_uring_submit, enospc}
use duende.Ublk.Control.{
  Ring, poll, looks, looks, read_completion, interpret_command_result, sleep_ns, command_timeout,
  stop_device, delete_device, force_delete, device_sqe, submitted, send_command_timeout,
  send_command,
}

-- The loop and the helper made for tests read a result alike: a result below 0 is a missing
-- device, a busy one or the error of that code, and any other is success.
pub read_completion-interpret :
    (dev_id : ℕ) (res : ℤ) → read_completion dev_id res ≡ interpret_command_result res dev_id
unfolding read_completion interpret_command_result
read_completion-interpret dev_id res = refl

two_more : (n : ℕ) → n + 2 ≡ suc (n + 1)
two_more n = omega arith

module _ (u : Ring) where
  pub poll_item :
      (fuel limit start dev_id : ℕ) (s s' : u.State) (res : ℤ)
      → u.next s ≡ some (res, s')
      → poll u (suc fuel) limit start dev_id s ≡ some (read_completion dev_id res, s')
  unfolding poll
  poll_item fuel limit start dev_id s s' res e = rw (e, poll) refl

  pub poll_late :
      (fuel limit start dev_id : ℕ) (s : u.State)
      → u.next s ≡ none
      → ltb limit (u.now s - start) ≡ true
      → poll u (suc fuel) limit start dev_id s ≡ some (err (timeout (limit / 1000000)), s)
  unfolding poll
  poll_late fuel limit start dev_id s e h = rw (e, poll) (rw h refl)

  pub poll_again :
      (fuel limit start dev_id : ℕ) (s : u.State)
      → u.next s ≡ none
      → ltb limit (u.now s - start) ≡ false
      → poll u (suc fuel) limit start dev_id s ≡ poll u fuel limit start dev_id (u.sleep s)
  unfolding poll
  poll_again fuel limit start dev_id s e h = rw (e, poll) (rw h refl)

  abbrev Returns : Option (Result Bool × u.State) → Type 0
  Returns o = (r : Result Bool) × (s' : u.State) × (o ≡ some (r, s'))

  -- One look returns, or leaves the rest to the looks after a sleep.
  poll_look :
      (fuel limit start dev_id : ℕ) (s : u.State)
      → (u.now s ≤ start + limit → Returns (poll u fuel limit start dev_id (u.sleep s)))
      → Returns (poll u (suc fuel) limit start dev_id s)
  poll_look fuel limit start dev_id s rest = elim (Option-cases (u.next s)) [
    | inr ((res, s'), e) ↦
        (read_completion dev_id res, s', poll_item fuel limit start dev_id s s' res e)
    | inl e ↦ elim (Bool-cases (ltb limit (u.now s - start))) [
      | inl t ↦ (err (timeout (limit / 1000000)), s, poll_late fuel limit start dev_id s e t)
      | inr f ↦
          let early : u.now s ≤ start + limit = ground arith in
          let (r, s', q) = rest early in (r, s', poll_again fuel limit start dev_id s e f ∙ q)
    ]
  ]

  -- With the time that is left covered by the looks that are left, the loop returns.
  poll-Returns :
      (fuel limit start dev_id : ℕ) (s : u.State)
      → start + limit < u.now s + fuel * sleep_ns
      → Returns (poll u (suc fuel) limit start dev_id s)
  poll-Returns zero limit start dev_id s h =
      poll_look zero limit start dev_id s (λ early. absurd (omega arith))
  poll-Returns (suc fuel) limit start dev_id s h =
      poll_look (suc fuel) limit start dev_id s
        (λ _. poll-Returns fuel limit start dev_id (u.sleep s) (omega (arith, u.sleep_takes s)))

  pub submitted_item :
      (limit dev_id : ℕ) (s s' : u.State) (res : ℤ)
      → (u.submit s).0 ≡ none
      → u.next (u.submit s).1 ≡ some (res, s')
      → submitted u limit dev_id s ≡ some (read_completion dev_id res, s')
  unfolding submitted
  submitted_item limit dev_id s s' res e f =
      let q =
        poll_item (limit / sleep_ns + 1) limit (u.now (u.submit s).1) dev_id (u.submit s).1 s' res
          f in
      rw (e, submitted) (rw (two_more (limit / sleep_ns)) q)

  submitted-Returns : (limit dev_id : ℕ) (s : u.State) → Returns (submitted u limit dev_id s)
  unfolding submitted
  submitted-Returns limit dev_id s = elim (Option-cases (u.submit s).0) [
    | inr (code, e) ↦ (err (io_uring_submit code), (u.submit s).1, rw (e, submitted) refl)
    | inl e ↦
        let s' = (u.submit s).1 in
        let (r, s'', q) =
          poll-Returns (limit / sleep_ns + 1) limit (u.now s') dev_id s' (omega arith) in
        (r, s'', rw (e, submitted) (rw (two_more (limit / sleep_ns)) q))
  ]

  pub submitted-poll :
      (limit dev_id : ℕ) (s : u.State)
      → (u.submit s).0 ≡ none
      → submitted u limit dev_id s
        ≡ poll u (looks limit) limit (u.now (u.submit s).1) dev_id (u.submit s).1
  unfolding submitted
  submitted-poll limit dev_id s e = rw (e, submitted) refl

  pub send_command_pushed :
      (dev_id opcode : ℕ) (s s' : u.State)
      → u.push (device_sqe opcode dev_id) s ≡ some s'
      → send_command u dev_id opcode s ≡ submitted u command_timeout dev_id s'
  unfolding send_command send_command_timeout
  send_command_pushed dev_id opcode s s' e = rw (e, send_command, send_command_timeout) refl

  -- A command, whatever its device and its opcode, is answered in the looks that its time allows.
  pub send_command_returns :
      (dev_id opcode : ℕ) (s : u.State)
      → (r : Result Bool) × (s' : u.State) × (send_command u dev_id opcode s ≡ some (r, s'))
  unfolding send_command send_command_timeout
  send_command_returns dev_id opcode s = elim (Option-cases (u.push (device_sqe opcode dev_id) s)) [
    | inl e ↦ (err (io_uring_submit enospc), s, rw (e, send_command, send_command_timeout) refl)
    | inr (s', e) ↦
        let (r, s'', q) = submitted-Returns command_timeout dev_id s' in
        (r, s'', send_command_pushed dev_id opcode s s' e ∙ q)
  ]

  -- So a forced deletion is answered, whatever became of the stop before it.
  pub force_delete_returns :
      (dev_id : ℕ) (s : u.State)
      → (r : Result Bool) × (s' : u.State) × (force_delete u dev_id s ≡ some (r, s'))
  unfolding force_delete stop_device delete_device
  force_delete_returns dev_id s =
      let (_, s', p) = send_command_returns dev_id ublk_u_cmd_stop_dev s in
      let (r, s'', q) = send_command_returns dev_id ublk_u_cmd_del_dev s' in
      (r, s'', rw (p, force_delete, stop_device, delete_device) q)
