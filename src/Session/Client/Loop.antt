-- ===== src/Session/Client/Loop.antt =====
-- client.cpp: the loop of `handle_input` ends.
use tin_dox.Prelude.{
  ℕ, zero, suc, ◌+◌, ◌*◌, ◌≤◌, ◌<◌, [], ◌∷◌, true, false, none, some, ◌≡◌, refl, ◌⊎◌, inl, inr,
  arith, Bytes, ok, err, if◌then◌else◌, length, subst, sym, ap, Bool-cases, Option-cases,
}
use tin_dox.Protocol.Error.{Error, Outcome, protocol, fatal, running}
use tin_dox.Protocol.Interpreter.{Request, Interpreter, commit_bytes, get_request, restart}
use tin_dox.Protocol.Interpreter.Loop.{commit_bytes_shorter}
use tin_dox.System.{System}
use tin_dox.Session.Client.{
  take_reply, run_available, after_commit, after_fed, handle_request, handle_upload, handle_in,
  is_empty, handle_rounds, rounds, handle_input,
}
use tin_dox.Session.Connection.{
  Client, Call, ◌>>=◌, proceed, ◌>>◌, return, inside, world, change, done, throw,
}
use tin_dox.Session.Context.{set_mode}
use tin_dox.Session.Executor.{execute_command}
use tin_dox.Session.State.{command, download, upload, ProtocolMode, World}
use tin_dox.Session.Upload.{UploadManager, upload_bytes, has_finished}
use tin_dox.Session.Client.Pieces.{Taken, upload_bytes-Taken}
use tin_dox.Session.Client.Ready.{IsReady, take_reply-IsReady}

-- What holds behind a call that has not thrown.
abbrev Ending :
    {Disk A : Type 0}
    → (World Disk → Client → A → Type 0)
    → World Disk × Client × Outcome A
    → Type 0
Ending P (w, c, ok a) = P w c a
Ending P (w, c, err e) = Unit

-- The exceptions of the source.
abbrev pub IsThrown : Error → Type 0
IsThrown (protocol e) = Unit
IsThrown (fatal m) = Unit
IsThrown running = ⊥

-- Rounds that may follow: two for each byte, and one to end an upload that takes none.
abbrev weight : ProtocolMode → ℕ
weight upload = 1
weight _ = 0

abbrev left : {Disk : Type 0} → World Disk → Bytes → ℕ
left w input = 2 * length input + weight w.client.mode

weight-le : (mode : ProtocolMode) → weight mode ≤ 1
weight-le command = omega arith
weight-le download = omega arith
weight-le upload = omega arith

-- A round ends the loop, or leaves less to do.
abbrev Falls : {Disk : Type 0} → ℕ → World Disk × Client × Outcome Bytes → Type 0
Falls n r = Ending (λ v d rest. IsReady d × ((rest ≡ []) ⊎ (left v rest < n))) r

IsReady-Ending :
    {Disk : Type 0} (r : World Disk × Client × Outcome (Unit {0}))
    → IsReady r.1
    → Ending (λ v d _. IsReady d) r
IsReady-Ending (v, d, ok u) ready = ready
IsReady-Ending (v, d, err e) ready = tt

-- `get_request` answers what waits, and nothing waits behind it.
request_cases :
    (i : Interpreter)
    → ((i.request ≡ none) × (get_request i ≡ none))
      ⊎ ((r : Request) × (get_request i ≡ some (r, restart i)))
unfolding get_request
request_cases i = elim (Option-cases i.request) [
  | inl waiting ↦ inl (waiting, rw waiting refl)
  | inr (r, ready) ↦ inr (r, rw ready refl)
]

module _ {Disk : Type 0} (sys : System Disk) (copy_fuel stale_size : ℕ) where
  handle_upload-Falls :
      (input : Bytes) (w : World Disk) (c : Client)
      → IsReady c
      → Falls (2 * length input + 1) (handle_upload sys copy_fuel stale_size input w c)
  unfolding handle_upload ◌>>=◌ set_mode
  handle_upload-Falls input w c ready =
      go (upload_bytes sys c.upload_manager input w)
        (upload_bytes-Taken sys c.upload_manager input w)
    where
      go :
          (r : World Disk × Outcome (UploadManager × Bytes))
          → Taken input r
          → Falls (2 * length input + 1) (
              proceed
                (r.0, c, r.1)
                λ t.
                  change (λ d. record d { upload_manager = t.0 })
                  >> ((if has_finished t.0 then inside (set_mode command) else done) >> return t.1))
      go (v, err e) taken = tt
      go (v, ok (u, rest)) taken = elim (Bool-cases (has_finished u)) [
        | inl finished ↦ rw finished (ready, ended finished taken)
        | inr going ↦ rw going (ready, going_on going taken)
      ]
        where
          ended :
              has_finished u ≡ true
              → Taken input (v, ok (u, rest))
              → (rest ≡ []) ⊎ (2 * length rest + 0 < 2 * length input + 1)
          ended f (inl (_, short)) = inr (omega arith)
          ended f (inr (inl short)) = inr (omega arith)
          ended f (inr (inr empty)) = inl empty

          going_on :
              has_finished u ≡ false
              → Taken input (v, ok (u, rest))
              → (rest ≡ []) ⊎ (left v rest < 2 * length input + 1)
          going_on f (inl (g, _)) = absurd (cc)
          going_on f (inr (inl short)) = inr (omega (arith, weight-le v.client.mode))
          going_on f (inr (inr empty)) = inl empty

  after_commit-IsReady :
      (i : Interpreter) (o : Outcome (Unit {0})) (w : World Disk) (c : Client)
      → Ending
          (λ v d _. IsReady d)
          (after_commit sys copy_fuel stale_size i o w (record c { interpreter = i }))
  unfolding after_commit run_available restart change throw
  after_commit-IsReady i (ok _) w c = elim (request_cases i) [
    | inl (waiting, empty) ↦ rw empty waiting
    | inr (r, ready) ↦ rw ready (
        let (v, reply) = execute_command sys copy_fuel r w in
        let d = record c { interpreter = restart i } in
        IsReady-Ending (take_reply sys reply v d) ((take_reply-IsReady sys reply).kept v d refl))
  ]
  after_commit-IsReady i (err (protocol e)) w c = refl
  after_commit-IsReady i (err (fatal m)) w c = tt
  after_commit-IsReady i (err running) w c = tt

  handle_request-Falls :
      (input : Bytes) (w : World Disk) (c : Client)
      → IsReady c
      → Falls (2 * length input) (handle_request sys copy_fuel stale_size input w c)
  unfolding handle_request after_fed ◌>>=◌
  handle_request-Falls input w c ready =
      let fed = commit_bytes stale_size c.interpreter input in
      go
        (after_commit sys copy_fuel stale_size fed.interpreter fed.outcome w
          (record c { interpreter = fed.interpreter }))
        (after_commit-IsReady fed.interpreter fed.outcome w c)
        (commit_bytes_shorter stale_size c.interpreter input ready)
    where
      go :
          (r : World Disk × Client × Outcome (Unit {0}))
          → Ending (λ v d _. IsReady d) r
          → let rest = (commit_bytes stale_size c.interpreter input).rest in
            (rest ≡ []) ⊎ (length rest < length input)
            → Falls (2 * length input) (proceed r λ _. return rest)
      go (v, d, err e) h short = tt
      go (v, d, ok u) h (inl empty) = (h, inl empty)
      go (v, d, ok u) h (inr short) = (h, inr (omega (arith, weight-le v.client.mode)))

  handle_in-Falls :
      (mode : ProtocolMode) (input : Bytes) (w : World Disk) (c : Client)
      → IsReady c
      → Falls (2 * length input + weight mode) (handle_in sys copy_fuel stale_size mode input w c)
  unfolding handle_in ◌>>=◌ change return
  handle_in-Falls command input w c ready =
      subst (λ n. Falls n (handle_request sys copy_fuel stale_size input w c)) (omega arith)
        (handle_request-Falls input w c ready)
  handle_in-Falls download input w c ready = (ready, inl refl)
  handle_in-Falls upload input w c ready = handle_upload-Falls input w c ready

-- The rounds behind the first, by `more` and by `other`.
module _ {Disk : Type 0} (n : ℕ) (more other : Bytes → Call Disk Bytes)
    (agree : (rest : Bytes) (v : World Disk) (d : Client)
      → IsReady d
      → left v rest < n
      → (more rest v d ≡ other rest v d) × Ending (λ _ _ rest. rest ≡ []) (more rest v d)) where
  rounds_agree :
      (r : World Disk × Client × Outcome Bytes)
      → Falls n r
      → let first = proceed r (λ rest. if is_empty rest then return rest else more rest) in
        (first ≡ proceed r (λ rest. if is_empty rest then return rest else other rest))
        × Ending (λ _ _ rest. rest ≡ []) first
  unfolding return
  rounds_agree (v, d, err e) h = (refl, tt)
  rounds_agree (v, d, ok []) h = (refl, refl)
  rounds_agree (v, d, ok (x ∷ xs)) (ready, inl e) = absurd (cc e)
  rounds_agree (v, d, ok (x ∷ xs)) (ready, inr less) = agree (x ∷ xs) v d ready less

module _ {Disk : Type 0} (sys : System Disk) (copy_fuel stale_size : ℕ) where
  rounds_end :
      (f g : ℕ) (input : Bytes) (w : World Disk) (c : Client)
      → IsReady c
      → left w input < f
      → left w input < g
      → (handle_rounds sys copy_fuel stale_size f input w c
          ≡ handle_rounds sys copy_fuel stale_size g input w c)
        × Ending (λ _ _ rest. rest ≡ []) (handle_rounds sys copy_fuel stale_size f input w c)
  unfolding handle_rounds ◌>>=◌ world
  rounds_end zero g input w c ready h k = absurd (omega arith)
  rounds_end (suc f) zero input w c ready h k = absurd (omega arith)
  rounds_end (suc f) (suc g) input w c ready h k =
      rounds_agree (left w input) (handle_rounds sys copy_fuel stale_size f)
        (handle_rounds sys copy_fuel stale_size g)
        (λ rest v d r less. rounds_end f g rest v d r (omega arith) (omega arith))
        (handle_in sys copy_fuel stale_size w.client.mode input w c)
        (handle_in-Falls sys copy_fuel stale_size w.client.mode input w c ready)

  -- The rounds of `handle_input` end, whatever the bytes and the mode: it has used every byte, or has
  -- thrown, or the loop of cp in one of the rounds has not found a free copy number among the first
  -- `copy_fuel` and goes on. The rounds of the model are enough: more of them change nothing. No
  -- request waits in the interpreter before.
  pub handle_input_ends :
      (input : Bytes) (fuel : ℕ) (w : World Disk) (c : Client)
      → IsReady c
      → rounds input ≤ fuel
      → let r = handle_input sys copy_fuel stale_size input w c in
        ((r.2 ≡ ok []) ⊎ (((e : Error) × IsThrown e × (r.2 ≡ err e)) ⊎ (r.2 ≡ err running)))
        × (handle_rounds sys copy_fuel stale_size fuel input w c ≡ r)
  unfolding handle_input
  handle_input_ends input fuel w c ready enough =
      let bound = weight-le w.client.mode in
      let (same, ends) =
        rounds_end (rounds input) fuel input w c ready (omega (arith, bound))
          (omega (arith, bound)) in
      (go (handle_rounds sys copy_fuel stale_size (rounds input) input w c) ends, sym same)
    where
      go :
          (r : World Disk × Client × Outcome Bytes)
          → Ending (λ _ _ rest. rest ≡ []) r
          → (r.2 ≡ ok []) ⊎ (((e : Error) × IsThrown e × (r.2 ≡ err e)) ⊎ (r.2 ≡ err running))
      go (v, d, ok rest) h = inl (ap ok h)
      go (v, d, err (protocol e)) h = inr (inl (protocol e, tt, refl))
      go (v, d, err (fatal m)) h = inr (inl (fatal m, tt, refl))
      go (v, d, err running) h = inr (inr refl)
