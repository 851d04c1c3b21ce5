-- ===== src/Frame/Ends.antt =====
-- The loop of `dec_frames` of lib/src/frame.c comes to an end.
use quant.Base.{
  ℕ, zero, suc, ◌≤◌, ◌≡◌, refl, Bool, true, false, not, ◌&&◌, Option, none, some, List, [], ◌∷◌,
  arith, ltb, ◌==◌, if◌then◌else◌, length,
}
use quant.Diet.Tree.{SplayOps}
use quant.Conn.Packets.{PktMeta}
use quant.Conn.State.{Conn}
use quant.Conn.Close.{err_close}
use quant.Frame.AckDec.{AckEnv}
use quant.Frame.{frm_pad, frm_max}
use quant.Frame.Handled.{err_pv, err_fram_enc}
use quant.Frame.Enc.{track_frame}
use quant.Frame.Dispatch.{
  Switched, Decoded, Next, refused, stopped, handle, end, forbid, dec_frame, dec_frames, next_frame,
  skip_pad, end_frames, is_allowed,
}
use quant.Frame.Switches.{Switches, dec_frame-Switches}

skip_pad_shorter :
    (t : ℕ) (bs rest : List ℕ) → skip_pad bs ≡ some (t, rest) → length rest ≤ length bs
unfolding skip_pad
skip_pad_shorter t [] rest h = ground arith
skip_pad_shorter t (b ∷ bs) rest h = ground (arith, skip_pad_shorter t bs rest)

-- A frame that is to be handled has at most `n` bytes.
data Fits (n : ℕ) : Next → Type 0 where
  handles : (m : PktMeta) (t : ℕ) (rest : List ℕ) → length rest ≤ n → Fits n (handle m t rest)
  ends : (m : PktMeta) → Fits n (end m)
  forbids : (t : ℕ) → Fits n (forbid t)

if-Fits : (n : ℕ) (b : Bool) (x y : Next) → Fits n x → Fits n y → Fits n (if b then x else y)
if-Fits n true x y h k = h
if-Fits n false x y h k = k

padded-Fits :
    (n : ℕ) (m : PktMeta) (o : Option (ℕ × List ℕ))
    → ((t : ℕ) (r : List ℕ) → o ≡ some (t, r) → length r ≤ n)
    → Fits n
        (elim o [ none ↦ end m | some (t, []) ↦ end m | some (t, b ∷ bs) ↦ handle m t (b ∷ bs) ])
padded-Fits n m none f = ends m
padded-Fits n m (some (t, [])) f = ends m
padded-Fits n m (some (t, b ∷ bs)) f = handles m t (b ∷ bs) (f t (b ∷ bs) refl)

next_frame-Fits : (m : PktMeta) (type : ℕ) (bs : List ℕ) → Fits (length bs) (next_frame m type bs)
unfolding next_frame
next_frame-Fits m type bs =
    if-Fits (length bs) (ltb type frm_max && not (is_allowed m type)) _ _ (forbids type) (
      if-Fits (length bs) (type == frm_pad) _ _
        (padded-Fits (length bs) (track_frame m frm_pad) (skip_pad bs)
          (λ t r. skip_pad_shorter t bs r))
        (handles m type bs (omega arith)))

module _ (ops : SplayOps) (w_max default_ups now now2 past : ℕ) (srt_new can_dup : List ℕ → Bool)
    (env : AckEnv) where
  module _ (n : ℕ)
      (ih : (c : Conn) (m : PktMeta) (ok : Bool) (inp : List ℕ)
        → length inp ≤ n
        → (d : Decoded) × ((fuel : ℕ)
            → length inp ≤ fuel
            → dec_frames ops w_max default_ups now now2 past srt_new can_dup env fuel c m ok inp
              ≡ some d)) where
    after_handle :
        (c : Conn) (m m1 : PktMeta) (ok : Bool) (type t : ℕ) (bs rest : List ℕ) (x : Switched)
        → length bs ≤ n
        → next_frame m type bs ≡ handle m1 t rest
        → dec_frame ops w_max default_ups now now2 past srt_new can_dup env c m1 ok t rest ≡ x
        → Switches (length bs) x
        → (d : Decoded) × ((fuel : ℕ)
            → length bs ≤ fuel
            → dec_frames ops w_max default_ups now now2 past srt_new can_dup env
                (suc fuel)
                c
                m
                ok
                (type ∷ bs)
              ≡ some d)
    unfolding dec_frames
    after_handle c m m1 ok type t bs rest _ l e f (Switches.goes_on c1 m2 true t1 r1 k) =
        let (d, h) = ih c1 (track_frame m2 t1) true r1 (omega arith) in
        (d, λ fuel g. rw (dec_frames, e, f) (h fuel (omega arith)))
    after_handle c m m1 ok type t bs rest _ l e f (Switches.goes_on c1 m2 false t1 r1 k) =
        (refused (err_close c1 err_fram_enc t1), λ fuel g. rw (dec_frames, e, f) refl)
    after_handle c m m1 ok type t bs rest _ l e f (Switches.closes c1) =
        (refused c1, λ fuel g. rw (dec_frames, e, f) refl)
    after_handle c m m1 ok type t bs rest _ l e f Switches.dies =
        (stopped, λ fuel g. rw (dec_frames, e, f) refl)

    after_next :
        (c : Conn) (m : PktMeta) (ok : Bool) (type : ℕ) (bs : List ℕ) (x : Next)
        → length bs ≤ n
        → next_frame m type bs ≡ x
        → Fits (length bs) x
        → (d : Decoded) × ((fuel : ℕ)
            → length bs ≤ fuel
            → dec_frames ops w_max default_ups now now2 past srt_new can_dup env
                (suc fuel)
                c
                m
                ok
                (type ∷ bs)
              ≡ some d)
    unfolding dec_frames
    after_next c m ok type bs _ l e (forbids t) =
        (refused (err_close c err_pv t), λ fuel g. rw (dec_frames, e) refl)
    after_next c m ok type bs _ l e (ends m1) = (end_frames c m1, λ fuel g. rw (dec_frames, e) refl)
    after_next c m ok type bs _ l e (handles m1 t rest k) =
        after_handle c m m1 ok type t bs rest
          (dec_frame ops w_max default_ups now now2 past srt_new can_dup env c m1 ok t rest) l e
          refl
          (dec_frame-Switches ops w_max default_ups now now2 past srt_new can_dup env (length bs) c
            m1 t rest k ok)

  ends_below :
      (n : ℕ) (c : Conn) (m : PktMeta) (ok : Bool) (inp : List ℕ)
      → length inp ≤ n
      → (d : Decoded) × ((fuel : ℕ)
          → length inp ≤ fuel
          → dec_frames ops w_max default_ups now now2 past srt_new can_dup env fuel c m ok inp
            ≡ some d)
  unfolding dec_frames
  ends_below n c m ok [] l = (end_frames c m, λ fuel g. refl)
  ends_below zero c m ok (type ∷ bs) l = absurd (omega arith)
  ends_below (suc n) c m ok (type ∷ bs) l =
      let (d, h) =
        after_next n (ends_below n) c m ok type bs (next_frame m type bs) (omega arith) refl
          (next_frame-Fits m type bs) in
      (d, λ fuel g. enough d h fuel g)
    where
      enough :
          (d : Decoded)
          → ((fuel : ℕ)
              → length bs ≤ fuel
              → dec_frames ops w_max default_ups now now2 past srt_new can_dup env
                  (suc fuel)
                  c
                  m
                  ok
                  (type ∷ bs)
                ≡ some d)
          → (fuel : ℕ) → length (type ∷ bs) ≤ fuel
          → dec_frames ops w_max default_ups now now2 past srt_new can_dup env fuel c m ok
              (type ∷ bs)
            ≡ some d
      enough d h zero g = absurd (omega arith)
      enough d h (suc fuel) g = h fuel (omega arith)

  -- The loop of dec_frames comes to an end for every payload, whatever the calls that are not modelled do
  -- to the connection, and fuel for as many rounds as the payload has bytes is enough: there is a result
  -- that does not depend on how much more there is.
  pub dec_frames_ends :
      (c : Conn) (m : PktMeta) (ok : Bool) (inp : List ℕ)
      → (d : Decoded) × ((fuel : ℕ)
          → length inp ≤ fuel
          → dec_frames ops w_max default_ups now now2 past srt_new can_dup env fuel c m ok inp
            ≡ some d)
  dec_frames_ends c m ok inp = ends_below (length inp) c m ok inp (omega arith)
