-- ===== src/Daemon/Outputs/Queue.antt =====
-- `ApplyOutputCommands`: the loop over the queue, and where each bit of the I/O map comes from.
use ec_systemcore.Base.{
  ℕ, zero, suc, ◌<◌, ◌≡◌, refl, ap, ◌∙◌, subst, Bool, false, List, [], ◌∷◌, some, arith, length,
  inl, inr, All, if◌then◌else◌,
}
use ec_systemcore.Protocol.Bytes.{IsBytes}
use ec_systemcore.Safety.Pdo.{bit_at}
use ec_systemcore.Daemon.SpscQueue.{SpscQueue}
use ec_systemcore.Daemon.SpscQueue.Fifo.{IsQueue, contents, try_pop-uncons, length-contents}
use ec_systemcore.Daemon.Bus.{OutputCommand, maximum_output_commands}
use ec_systemcore.Daemon.Outputs.{
  SubDevice, Worker, Permit, apply_command, apply_queued, apply_output_commands, permit_of,
  begin_permission,
}
use ec_systemcore.Daemon.Outputs.Commands.{SetsOrLeaves, layouts, apply_command-Applied}
use ec_systemcore.Daemon.Outputs.Permission.{Begun, cleared, begin_permission-Begun}

-- The commands one by one, without the queue.
pub apply_all : Permit → Worker → List OutputCommand → Worker
apply_all p w [] = w
apply_all p w (c ∷ rest) = apply_all p (apply_command p w c) rest

-- Bit `j` was `before` and is `after` once the commands have been handled in order: each sets it or
-- leaves it, so that the last command that sets it decides.
pub HandledInOrder : Permit → ℕ → List SubDevice → ℕ → List OutputCommand → Bool → Bool → Type 0
HandledInOrder p map_size subs j [] before after = after ≡ before
HandledInOrder p map_size subs j (c ∷ rest) before after =
    (between : Bool) × SetsOrLeaves p map_size subs j before between c
    × HandledInOrder p map_size subs j rest between after

abbrev pub HaveBytes : List OutputCommand → Type 0
HaveBytes cs = All (λ c. IsBytes c.image) cs

-- Each bit of the map is what the commands make of it.
pub record AllApplied (p : Permit) (w w' : Worker) (cs : List OutputCommand) : Type 0 where
  pub same_length : length w'.io_map ≡ length w.io_map
  pub same_layouts : layouts w' ≡ layouts w
  pub bits_are :
      (j : ℕ)
      → HandledInOrder p (length w.io_map) (layouts w) j cs (bit_at w.io_map j) (bit_at w'.io_map j)

apply_all-AllApplied :
    (p : Permit) (w : Worker) (cs : List OutputCommand)
    → IsBytes w.io_map
    → HaveBytes cs
    → AllApplied p w (apply_all p w cs) cs
unfolding apply_all HandledInOrder
apply_all-AllApplied p w [] h k = record {
  same_length = refl;
  same_layouts = refl;
  bits_are = λ j. refl;
}
apply_all-AllApplied p w (c ∷ rest) h k =
    let w1 = apply_command p w c in
    let a = apply_command-Applied p w c h k.0 in
    let r = apply_all-AllApplied p w1 rest a.bytes_fit k.1 in
    record {
      same_length = r.same_length ∙ a.same_length;
      same_layouts = r.same_layouts ∙ a.same_layouts;
      bits_are = λ j.
          let b1 = bit_at w1.io_map j in
          let b2 = bit_at (apply_all p w1 rest).io_map j in
          (
            b1,
            a.bits_are j,
            subst (λ n. HandledInOrder p n (layouts w) j rest b1 b2) a.same_length
                (subst (λ subs. HandledInOrder p (length w1.io_map) subs j rest b1 b2)
                  a.same_layouts (r.bits_are j)),
          );
    }

-- What the commands make of a bit, told of the worker before permission began.
moved_base :
    (p : Permit) (w w1 : Worker) (j : ℕ) (b : Bool) (cs : List OutputCommand)
    → Begun p w w1
    → HandledInOrder p (length w1.io_map) (layouts w1) j cs (bit_at w1.io_map j) b
    → HandledInOrder p
        (length w.io_map)
        (layouts w)
        j
        cs
        (if cleared p w j then false else bit_at w.io_map j)
        b
moved_base p w w1 j b cs begun h =
    subst (λ x. HandledInOrder p (length w.io_map) (layouts w) j cs x b) (begun.image.bits_are j)
      (subst (λ n. HandledInOrder p n (layouts w) j cs (bit_at w1.io_map j) b)
        begun.image.same_length
        (subst (λ subs. HandledInOrder p (length w1.io_map) subs j cs (bit_at w1.io_map j) b)
          begun.same_layouts h))

-- What the bits of the map are: those before, or 0 where the start of permission clears them, and then
-- what the commands make of them.
pub record Filled (p : Permit) (w w' : Worker) (cs : List OutputCommand) : Type 0 where
  pub same_length : length w'.io_map ≡ length w.io_map
  pub same_layouts : layouts w' ≡ layouts w
  pub bits_are :
      (j : ℕ)
      → HandledInOrder p
          (length w.io_map)
          (layouts w)
          j
          cs
          (if cleared p w j then false else bit_at w.io_map j)
          (bit_at w'.io_map j)

module _ (initial : OutputCommand) where
  -- The loop over the queue is that over its contents, and leaves it empty.
  apply_queued-returns :
      (fuel : ℕ) (p : Permit) (q : SpscQueue OutputCommand) (w : Worker)
      → IsQueue initial maximum_output_commands q
      → length (contents initial maximum_output_commands q) < fuel
      → (q' : SpscQueue OutputCommand) × (apply_queued initial fuel p q w
          ≡ some (q', apply_all p w (contents initial maximum_output_commands q)))
        × (contents initial maximum_output_commands q' ≡ [])
  unfolding apply_queued apply_all
  apply_queued-returns zero p q w v h = absurd (omega arith)
  apply_queued-returns (suc fuel) p q w v h =
      elim (try_pop-uncons initial maximum_output_commands q v) [
        | inl (stopped, empty) ↦ (q, rw (stopped, apply_queued, empty) refl, empty)
        | inr (c, q1, popped, v1, front) ↦
            let (q2, done, empty) =
              apply_queued-returns fuel p q1 (apply_command p w c) v1
                (omega (arith, ap length front, h)) in
            (q2, rw (popped, apply_queued, front) done, empty)
      ]

  -- With a valid queue whose commands carry bytes, applying the output commands returns, empties the
  -- queue and handles its commands in order, after the zeroing that permission starts with. Each bit
  -- of the I/O map is then that of the last command of the queue that is of this epoch, in time,
  -- permitted and replaces the whole of an image that holds the bit, at that image's place; without
  -- such a command it is what it was (or 0, if it is in an output image and permission starts with an
  -- open context).
  pub apply_output_commands-Filled :
      (permitted : Bool) (epoch now : ℕ) (q : SpscQueue OutputCommand) (w : Worker)
      → IsQueue initial maximum_output_commands q
      → IsBytes w.io_map
      → HaveBytes (contents initial maximum_output_commands q)
      → (q' : SpscQueue OutputCommand) × (w' : Worker) × (apply_output_commands initial permitted
            epoch now q w
          ≡ some (q', w'))
        × (contents initial maximum_output_commands q' ≡ [])
        × (w'
            ≡ apply_all
                (permit_of w permitted epoch now)
                (begin_permission (permit_of w permitted epoch now) w)
                (contents initial maximum_output_commands q))
        × Filled (permit_of w permitted epoch now) w w' (contents initial maximum_output_commands q)
  unfolding apply_output_commands
  apply_output_commands-Filled permitted epoch now q w v h k =
      let p = permit_of w permitted epoch now in
      let cs = contents initial maximum_output_commands q in
      let w1 = begin_permission p w in
      let fuel_fits = length-contents initial maximum_output_commands q v in
      let (q', done, empty) =
        apply_queued-returns (suc maximum_output_commands) p q w1 v (omega (arith, fuel_fits)) in
      let begun = begin_permission-Begun p w h in
      let a = apply_all-AllApplied p w1 cs begun.image.bytes_fit k in
      (
        q',
        apply_all p w1 cs,
        done,
        empty,
        refl,
        record {
          same_length = a.same_length ∙ begun.image.same_length;
          same_layouts = a.same_layouts ∙ begun.same_layouts;
          bits_are = λ j.
              moved_base p w w1 j (bit_at (apply_all p w1 cs).io_map j) cs begun (a.bits_are j);
        },
      )
