-- ===== src/Api/Writes.antt =====
-- What the handler of writes does.
use zanzo.Base.{◌+◌, ◌^◌, ◌<◌, ◌≡◌, refl, Option, some, List, Str, Result, ok, err, arith, subst}
use zanzo.Storage.Types.{Tuple}
use zanzo.Storage.Memory.{Memory, write}
use zanzo.Storage.Memory.Written.{IsStored, write-IsStored}
use zanzo.Api.Token.{parse_token, parse_token-format_token}
use zanzo.Api.Bodies.{IsWrite, write_call-IsWrite}
use zanzo.Api.Handlers.{
  Response, Refusal, written, failed, WriteCall, write_call, answer_write, handle_write,
}

-- Written: the store is written with the tuples that the texts of the body stand for, and the token
-- parses to the head that they make, the next revision. Refused: the store is as it was.
abbrev pub Applies : Memory → Option WriteCall → Response × Memory → Type 0
Applies m body (r, m') =
    (token : Str)
    → r ≡ written token
    → (add : List Tuple) × (remove : List Tuple) × IsWrite body add remove
      × (m' ≡ write add remove m)
      × (m'.head ≡ m.head + 1)
      × (parse_token token ≡ some m'.head)

abbrev pub Refuses : Memory → Response × Memory → Type 0
Refuses m (r, m') = (x : Refusal) → r ≡ failed x → m' ≡ m

written_inj : {a b : Str} → written a ≡ written b → a ≡ b
written_inj h = ground arith

answer-Applies :
    (m : Memory) (body : Option WriteCall) (r : Result Refusal (List Tuple × List Tuple))
    → write_call body ≡ r
    → IsStored m
    → m.head + 1 < 2 ^ 64
    → Applies m body (answer_write m r)
      × Refuses m (answer_write m r)
      × IsStored (answer_write m r).1
answer-Applies m body (err x) p h room = ((λ token e. absurd (cc)), (λ y e. refl), h)
answer-Applies m body (ok (add, remove)) p h room =
    let (kept, moved) = write-IsStored add remove m h room in
    let read_back =
      (parse_token-format_token (write add remove m).head).0 (omega (arith, moved, room)) in
    (
      λ token e. (
        add,
        remove,
        write_call-IsWrite body add remove p,
        refl,
        moved,
        subst (λ t. parse_token t ≡ some (write add remove m).head) (written_inj e) read_back,
      ),
      λ y e. absurd (cc),
      kept,
    )

-- On a well-formed store below the last revision of a uint64: on success the write handler adds the
-- tuples whose texts the additions of the body have, one for one, and removes those of its removals,
-- and returns a token that parses to the new head, the next revision; on a refusal the store is as it
-- was; the store stays well-formed.
pub handle_write-Applies :
    (m : Memory) (body : Option WriteCall)
    → IsStored m
    → m.head + 1 < 2 ^ 64
    → Applies m body (handle_write m body)
      × Refuses m (handle_write m body)
      × IsStored (handle_write m body).1
unfolding handle_write
handle_write-Applies m body h room = answer-Applies m body (write_call body) refl h room
