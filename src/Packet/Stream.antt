-- ===== src/Packet/Stream.antt =====
-- The loop of `read_packet` in src/util/communication.c on a stream cut in any way.
use native.Mathlib.Decide.{dec_le}
use inf01151_trabalho_final.Base.{
  ℕ, zero, suc, ◌-◌, ◌≤◌, ◌<◌, ◌≡◌, ◌≢◌, refl, ◌∙◌, sym, ap, List, [], ◌∷◌, ◌++◌, append_assoc,
  append-nil, arith, Bytes, length, take, drop, length-append, length-drop, take_more, drop_more,
  take_less, drop_less,
}
use inf01151_trabalho_final.Packet.Socket.{
  Event, data_in, end_of_stream, read_error, recv, Received, complete,
}

-- The bytes that arrive before the first event of another kind.
abbrev pub arriving : List Event → Bytes
arriving [] = []
arriving (data_in bytes ∷ events) = bytes ++ arriving events
arriving (end_of_stream ∷ events) = []
arriving (read_error ∷ events) = []

-- A `read` that finds bytes finds at least one.
abbrev pub IsStream : List Event → Type 0
IsStream [] = Unit
IsStream (data_in bytes ∷ events) = (bytes ≢ []) × IsStream events
IsStream (e ∷ events) = IsStream events

-- What `recv` has done once `n` bytes have come, however they were cut.
pub record Filled (n : ℕ) (got : Bytes) (events : List Event) (r : Received × List Event)
    : Type 0 where
  pub outcome : r.0 ≡ complete (got ++ take n (arriving events))
  pub rest : arriving r.1 ≡ drop n (arriving events)
  pub stream : IsStream r.1

recv-zero : (got : Bytes) (events : List Event) → recv 0 got events ≡ (complete got, events)
unfolding recv
recv-zero got [] = refl
recv-zero got (e ∷ events) = refl

-- What a `read` finds is wanted whole.
recv_whole :
    (n : ℕ) (got bytes : Bytes) (events : List Event)
    → length bytes ≤ suc n
    → recv (suc n) got (data_in bytes ∷ events) ≡ recv (suc n - length bytes) (got ++ bytes) events
unfolding recv
recv_whole n got bytes events h = ground arith

-- More has arrived than is wanted.
recv_part :
    (n : ℕ) (got bytes : Bytes) (events : List Event)
    → suc n < length bytes
    → recv (suc n) got (data_in bytes ∷ events)
      ≡ (complete (got ++ take (suc n) bytes), data_in (drop (suc n) bytes) ∷ events)
unfolding recv
recv_part n got bytes events h = ground arith

drop-ne-nil : (n : ℕ) (xs : Bytes) → n < length xs → drop n xs ≢ []
drop-ne-nil n xs h e = absurd (omega (arith, length-drop n xs, ap length e))

pub recv-Filled :
    (n : ℕ) (got : Bytes) (events : List Event)
    → IsStream events
    → n ≤ length (arriving events)
    → Filled n got events (recv n got events)
recv-Filled zero got events s h =
    rw (recv-zero got events) (record { outcome = rw append-nil; rest = refl; stream = s })
recv-Filled (suc n) got [] s h = absurd (omega arith)
recv-Filled (suc n) got (end_of_stream ∷ events) s h = absurd (omega arith)
recv-Filled (suc n) got (read_error ∷ events) s h = absurd (omega arith)
recv-Filled (suc n) got (data_in bytes ∷ events) s h = elim (dec_le (length bytes) (suc n)) [
  | yes all ↦
      let ih =
        recv-Filled (suc n - length bytes) (got ++ bytes) events s.1
          (omega (arith, length-append bytes (arriving events))) in
      rw (recv_whole n got bytes events all) (record {
        outcome =
            ih.outcome
            ∙ ap complete (
                append_assoc got bytes _
                ∙ ap (λ t. got ++ t) (sym (take_more (suc n) bytes (arriving events) all)));
        rest = ih.rest ∙ sym (drop_more (suc n) bytes (arriving events) all);
        stream = ih.stream;
      })
  | no more ↦ rw (recv_part n got bytes events (omega arith)) (record {
    outcome =
        ap (λ t. complete (got ++ t))
          (sym (take_less (suc n) bytes (arriving events) (omega arith)));
    rest = sym (drop_less (suc n) bytes (arriving events) (omega arith));
    stream = (drop-ne-nil (suc n) bytes (omega arith), s.1);
  })
]
