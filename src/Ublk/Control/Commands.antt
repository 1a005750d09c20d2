-- ===== src/Ublk/Control/Commands.antt =====
-- What the commands leave in the ring, and whose completion answers them (control.rs).
use duende.Prelude.{
  ℕ, zero, suc, ◌-◌, ◌≡◌, refl, ◌∙◌, sym, ap, Bool, true, none, some, List, [], ◌∷◌, ◌++◌, ltb,
  Option-cases, Bool-cases, inl, inr,
}
use mathlib.Core.List.{append_assoc}
use duende.Core.Types.{ℤ}
use duende.Ublk.Sys.{ublk_u_cmd_stop_dev, ublk_u_cmd_del_dev}
use duende.Ublk.Error.{Result}
use duende.Ublk.Control.{
  Ring, poll, submitted, looks, device_sqe, command_timeout, send_command, stop_device,
  delete_device, force_delete,
}
use duende.Ublk.Control.Loop.{
  submitted-poll, send_command_pushed, send_command_returns, poll_item, poll_late, poll_again,
}

module _ (u : Ring) where
  -- The ring has a place for a submission, and the kernel takes what it is given.
  abbrev pub Accepts : u.State → Type 0
  Accepts s = (u.room s ≡ true) × ((t : u.State) → (u.submit t).0 ≡ none)

  abbrev Same : u.State → u.State → Type 0
  Same s t = (u.sent t ≡ u.sent s) × (u.room t ≡ u.room s)

  next-Same_of :
      (s t : u.State) (res : ℤ) (l : List ℤ) → u.pending s ≡ l → u.next s ≡ some (res, t) → Same s t
  next-Same_of s t res [] q e = absurd (cc (u.next_empty s q))
  next-Same_of s t res (r ∷ rs) q e =
      let (s', f, p, sent_same, room_same) = u.next_item s r rs q in
      let there : t ≡ s' = cc in rw there (sent_same, room_same)

  -- A completion that is read leaves the submissions alone.
  next-Same : (s t : u.State) (res : ℤ) → u.next s ≡ some (res, t) → Same s t
  next-Same s t res e = next-Same_of s t res (u.pending s) refl e

  poll-Same :
      (fuel limit start dev_id : ℕ) (s t : u.State) (r : Result Bool)
      → poll u fuel limit start dev_id s ≡ some (r, t)
      → Same s t
  unfolding poll
  poll-Same zero limit start dev_id s t r e = absurd (cc)
  poll-Same (suc fuel) limit start dev_id s t r e = elim (Option-cases (u.next s)) [
    | inr ((res, s'), q) ↦
        let there : t ≡ s' = cc (poll_item u fuel limit start dev_id s s' res q) in
        rw there (next-Same s s' res q)
    | inl q ↦ elim (Bool-cases (ltb limit (u.now s - start))) [
      | inl late ↦
          let there : t ≡ s = cc (poll_late u fuel limit start dev_id s q late) in
          rw there (refl, refl)
      | inr early ↦
          let (p, q') =
            poll-Same fuel limit start dev_id (u.sleep s) t r
              (sym (poll_again u fuel limit start dev_id s q early) ∙ e) in
          let (m, n) = u.sleep_keeps s in (p ∙ m, q' ∙ n)
    ]
  ]

  submitted_same :
      (limit dev_id : ℕ) (s t : u.State) (r : Result Bool)
      → ((t : u.State) → (u.submit t).0 ≡ none)
      → submitted u limit dev_id s ≡ some (r, t)
      → (u.sent t ≡ u.sent s) × (u.room t ≡ true)
  submitted_same limit dev_id s t r takes e =
      let (_, _, n) = u.submit_grows s in
      let (p, q) =
        poll-Same (looks limit) limit (u.now (u.submit s).1) dev_id (u.submit s).1 t r
          (sym (submitted-poll u limit dev_id s (takes s)) ∙ e) in
      (p ∙ n, q ∙ u.submit_room s (takes s))

  -- A command that is accepted hands its submission over and nothing else.
  send_command-sent :
      (dev_id opcode : ℕ) (s t : u.State) (r : Result Bool)
      → Accepts s
      → send_command u dev_id opcode s ≡ some (r, t)
      → (u.sent t ≡ u.sent s ++ (device_sqe opcode dev_id ∷ [])) × Accepts t
  send_command-sent dev_id opcode s t r (free, takes) e =
      let (s', p, _, q) = u.push_room (device_sqe opcode dev_id) s free in
      let (m, n) =
        submitted_same command_timeout dev_id s' t r takes
          (sym (send_command_pushed u dev_id opcode s s' p) ∙ e) in
      (m ∙ q, (n, takes))

  force_delete_stopped :
      (dev_id : ℕ) (s s' : u.State) (r : Result Bool)
      → send_command u dev_id ublk_u_cmd_stop_dev s ≡ some (r, s')
      → force_delete u dev_id s ≡ send_command u dev_id ublk_u_cmd_del_dev s'
  unfolding force_delete stop_device delete_device
  force_delete_stopped dev_id s s' r p = rw (p, force_delete, stop_device) refl

  force_delete_both :
      (dev_id : ℕ) (s t : u.State) (r : Result Bool)
      → Accepts s
      → force_delete u dev_id s ≡ some (r, t)
      → (u.sent t
          ≡ u.sent s
            ++ (device_sqe ublk_u_cmd_stop_dev dev_id ∷ device_sqe ublk_u_cmd_del_dev dev_id ∷ []))
        × Accepts t
  force_delete_both dev_id s t r fits e =
      let stop = device_sqe ublk_u_cmd_stop_dev dev_id in
      let delete = device_sqe ublk_u_cmd_del_dev dev_id in
      let (r', s', p) = send_command_returns u dev_id ublk_u_cmd_stop_dev s in
      let (q, fits') = send_command-sent dev_id ublk_u_cmd_stop_dev s s' r' fits p in
      let last : send_command u dev_id ublk_u_cmd_del_dev s' ≡ some (r, t) =
        cc (e, force_delete_stopped dev_id s s' r' p) in
      let (m, kept) = send_command-sent dev_id ublk_u_cmd_del_dev s' t r fits' last in
      (m ∙ ap (λ l. l ++ (delete ∷ [])) q ∙ append_assoc (u.sent s) (stop ∷ []) (delete ∷ []), kept)

  -- A forced deletion that the kernel accepts sends the stop and then the deletion, in this order and
  -- whatever the stop's answer, and nothing else.
  pub force_delete-sent :
      (dev_id : ℕ) (s t : u.State) (r : Result Bool)
      → Accepts s
      → force_delete u dev_id s ≡ some (r, t)
      → u.sent t
        ≡ u.sent s
          ++ (device_sqe ublk_u_cmd_stop_dev dev_id ∷ device_sqe ublk_u_cmd_del_dev dev_id ∷ [])
  force_delete-sent dev_id s t r fits e = (force_delete_both dev_id s t r fits e).0

  pub force_delete-Accepts :
      (dev_id : ℕ) (s t : u.State) (r : Result Bool)
      → Accepts s
      → force_delete u dev_id s ≡ some (r, t)
      → Accepts t
  force_delete-Accepts dev_id s t r fits e = (force_delete_both dev_id s t r fits e).1
