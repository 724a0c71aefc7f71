-- ===== src/Driver/Session.antt =====
-- Calls of the device of hw14-driver/mouse_driv.c one after the other, as its file operations take
-- them.
use otus_c_2025_3_kushko.Common.{
  ℕ, ◌≤◌, ◌≡◌, sym, ap, ◌∙◌, inl, inr, Bool-cases, subst, List, [], ◌∷◌, ◌++◌, append-nil,
  append_assoc, length-take, length, take, take-all, min, leb, if◌then◌else◌, arith,
}
use otus_c_2025_3_kushko.Common.Int.{ℤ}
use otus_c_2025_3_kushko.Driver.Kernel.{Kernel, Ret, done, einval, enomem, ebusy, enospc, efault}
use otus_c_2025_3_kushko.Driver.Ring.{Ring, space, available, ring_buffer_write, ring_buffer_read}
use otus_c_2025_3_kushko.Driver.Ring.Inv.{IsValid, contents}
use otus_c_2025_3_kushko.Driver.Ring.Write.{Fits, write-appends, write-outcomes}
use otus_c_2025_3_kushko.Driver.Ring.Fetch.{read-outcomes}
use otus_c_2025_3_kushko.Driver.Events.{
  coordinate, event_text, mouse_open, mouse_open_lem, mouse_read, mouse_write, mouse_release,
}

-- A call of a file operation: `open` with the mode and two random numbers; `write` and `read` with
-- what the kernel does in it.
pub data Call : Type 0 where
  opening : ℤ → ℕ → ℕ → Call
  writing : Kernel → List ℕ → ℕ → Call
  reading : Kernel → ℕ → ℕ → Call
  closing : Call

-- The bytes that a return value says were handled.
abbrev pub handled : Ret → List ℕ → List ℕ
handled (done n) bytes = take n bytes
handled einval bytes = []
handled enomem bytes = []
handled ebusy bytes = []
handled enospc bytes = []
handled efault bytes = []

abbrev event_of : ℤ → ℕ → ℕ → List ℕ
event_of mode random_x random_y = event_text mode (coordinate random_x) (coordinate random_y)

-- The device after a call, and what the call delivers to its caller.
unfoldable pub dispatch : Ring → Call → Ring × List ℕ
dispatch r (opening mode random_x random_y) = (mouse_open r mode random_x random_y, [])
dispatch r (writing k user len) = ((mouse_write k r user len).0, [])
dispatch r (reading k len offset) =
    let o = mouse_read k r len offset in (o.ring, handled o.ret o.got)
dispatch r closing = (mouse_release r, [])

-- Several calls, and all that they deliver.
unfoldable pub run_calls : Ring → List Call → Ring × List ℕ
run_calls r [] = (r, [])
run_calls r (call ∷ calls) =
    let (r', got) = dispatch r call in let (r'', later) = run_calls r' calls in (r'', got ++ later)

-- What a call brings into the device, by what the caller learns: the bytes that a write counts, or
-- an event for which there is room.
abbrev pub brought : Ring → Call → List ℕ
brought r (opening mode random_x random_y) =
    if leb (length (event_of mode random_x random_y)) (space r)
    then event_of mode random_x random_y
    else []
brought r (writing k user len) = handled (mouse_write k r user len).1 user
brought r (reading k len offset) = []
brought r closing = []

abbrev pub brought_all : Ring → List Call → List ℕ
brought_all r [] = []
brought_all r (call ∷ calls) = brought r call ++ brought_all (dispatch r call).0 calls

-- What the call brings leaves one byte of the buffer free, or the tail is at its start; a write is
-- not asked for more than the caller's bytes. A call that brings nothing has room in every valid ring.
abbrev pub HasRoom : Ring → Call → Type 0
HasRoom r (opening mode random_x random_y) =
    Fits r (length (brought r (opening mode random_x random_y)))
HasRoom r (writing k user len) =
    (len ≤ length user) × Fits r (length (brought r (writing k user len)))
HasRoom r (reading k len offset) = Unit {0}
HasRoom r closing = Unit {0}

abbrev pub HaveRoom : Ring → List Call → Type 0
HaveRoom r [] = Unit {0}
HaveRoom r (call ∷ calls) = HasRoom r call × HaveRoom (dispatch r call).0 calls

-- A step from `r` to `r'` keeps the order: what was stored and is brought is what is delivered and
-- stored then.
record IsOrderly (r r' : Ring) (new got : List ℕ) : Type 0 where
  valid : IsValid r'
  order : contents r ++ new ≡ got ++ contents r'

-- In every valid ring a call that brings nothing has room.
never_full : (r : Ring) → IsValid r → Fits r 0
unfolding available
never_full r v = ground arith

write-IsOrderly :
    (k : Kernel) (r : Ring) (user : List ℕ) (len : ℕ)
    → IsValid r
    → len ≤ length user
    → Fits r (length (handled (ring_buffer_write k r user len).1 user))
    → IsOrderly r
        (ring_buffer_write k r user len).0
        (handled (ring_buffer_write k r user len).1 user)
        []
write-IsOrderly k r user len v enough fits =
    let (w, cases) = write-outcomes k r user len v in
    elim cases [
      | inl (z, full, same) ↦
          rw (full, same) (record { valid = v; order = append-nil (contents r) })
      | inr (inl (some_room, fault, same, head, tail)) ↦
          rw fault (record { valid = w; order = append-nil (contents r) ∙ sym same })
      | inr (inr (some_room, ok, tail)) ↦
          let m = min len (space r) in
          let counted : Fits r (length (take m user)) =
            subst (λ ret. Fits r (length (handled ret user))) ok fits in
          let room : Fits r m = omega (arith, counted, length-take m user, enough) in
          let (n, appended, w') = write-appends k r user len m v enough room ok in
          rw ok (record { valid = w; order = sym appended })
    ]

read-IsOrderly :
    (k : Kernel) (r : Ring) (len offset : ℕ)
    → IsValid r
    → let o = ring_buffer_read k r len offset in IsOrderly r o.ring [] (handled o.ret o.got)
read-IsOrderly k r len offset v =
    let o = ring_buffer_read k r len offset in
    let (w, cases) = read-outcomes k r len offset v in
    elim cases [
      | inl (z, empty, same, off) ↦
          rw (empty, same) (record { valid = v; order = append-nil (contents r) })
      | inr (inl (some_bytes, fault, same, off)) ↦
          rw (fault, same) (record { valid = v; order = append-nil (contents r) })
      | inr (inr (some_bytes, ok, split, size, off)) ↦ rw ok (record {
        valid = w;
        order =
            append-nil (contents r)
            ∙ sym split
            ∙ ap (λ xs. xs ++ contents o.ring)
                (sym (take-all (min len (available r)) o.got (omega arith)));
      })
    ]

open-IsOrderly :
    (r : Ring) (mode : ℤ) (random_x random_y : ℕ)
    → IsValid r
    → HasRoom r (opening mode random_x random_y)
    → IsOrderly r
        (mouse_open r mode random_x random_y)
        (brought r (opening mode random_x random_y))
        []
open-IsOrderly r mode random_x random_y v room =
    let event = event_of mode random_x random_y in
    let (w, stored) = mouse_open_lem r mode random_x random_y v room in
    record {
      valid = w;
      order = elim (Bool-cases (leb (length event) (space r))) [
        | inl fits ↦ rw fits (
            sym (
              subst
                (λ b.
                  contents (mouse_open r mode random_x random_y)
                  ≡ (if b then contents r ++ event else contents r))
                fits stored))
        | inr over ↦ rw over (
            append-nil (contents r)
            ∙ sym (
                subst
                  (λ b.
                    contents (mouse_open r mode random_x random_y)
                    ≡ (if b then contents r ++ event else contents r))
                  over stored))
      ];
    }

dispatch-IsOrderly :
    (r : Ring) (call : Call)
    → IsValid r
    → HasRoom r call
    → IsOrderly r (dispatch r call).0 (brought r call) (dispatch r call).1
unfolding dispatch mouse_read mouse_write mouse_release
dispatch-IsOrderly r (opening mode random_x random_y) v room =
    open-IsOrderly r mode random_x random_y v room
dispatch-IsOrderly r (writing k user len) v (enough, fits) =
    write-IsOrderly k r user len v enough fits
dispatch-IsOrderly r (reading k len offset) v room = read-IsOrderly k r len offset v
dispatch-IsOrderly r closing v room = record { valid = v; order = append-nil (contents r) }

-- First in, first out: over any calls, in which what is brought, if anything is, leaves one byte of
-- the buffer free or the tail is at its start, and no write is asked for more than the caller's
-- bytes, the bytes that were stored and those that the calls brought, in
-- order, are just the bytes delivered, in order, and those stored at the end. Failed calls bring and
-- deliver nothing, and the ring stays valid.
pub run_calls_lem :
    (r : Ring) (calls : List Call)
    → IsValid r
    → HaveRoom r calls
    → let (r', got) = run_calls r calls in
      (contents r ++ brought_all r calls ≡ got ++ contents r') × IsValid r'
unfolding run_calls
run_calls_lem r [] v h = (append-nil (contents r), v)
run_calls_lem r (call ∷ calls) v h =
    let (r', got) = dispatch r call in
    let first = dispatch-IsOrderly r call v h.0 in
    let (order, w) = run_calls_lem r' calls first.valid h.1 in
    let later = (run_calls r' calls).1 in
    (
      sym (append_assoc (contents r) (brought r call) (brought_all r' calls))
          ∙ ap (λ xs. xs ++ brought_all r' calls) first.order
          ∙ append_assoc got (contents r') (brought_all r' calls)
          ∙ ap (λ xs. got ++ xs) order
          ∙ sym (append_assoc got later (contents (run_calls r' calls).0)),
      w,
    )
