-- ===== src/Frame/Hidden.antt =====
-- The types that `dec_frames` of lib/src/frame.c does not compare with those the packet may hold.
use quant.Base.{
  ap, ◌∙◌, ◌||◌, ℕ, zero, suc, ◌≡◌, refl, Bool, true, false, some, List, [], ◌∷◌, arith, ltb, ◌==◌,
  length, drop,
}
use quant.Diet.Tree.{SplayOps}
use quant.Conn.Packets.{
  PnSpace, PnType, pn_init, pn_hshk, pn_data, PktMeta, Epoch, ep_init, ep_0rtt, ep_hshk, ep_data,
}
use quant.Conn.State.{Conn, get_pn, set_pn}
use quant.Conn.Close.{err_close}
use quant.Frame.AckDec.{AckEnv}
use quant.Frame.{frm_pad, frm_pcl, frm_max, any_frm_hit}
use quant.Frame.Handled.{err_pv}
use quant.Frame.Paths.{dec_path_challenge_frame, challenged, path_chlg_len}
use quant.Frame.Data.{epoch_for_pkt_type}
use quant.Frame.RoundTrip.{take_all}
use quant.Marshall.Dec.{decb}
use quant.Frame.Enc.{track_frame}
use quant.Frame.Dispatch.{
  is_allowed, skip_pad, dec_frame, dec_frames, next_frame, refused, limit_frame, path_frame,
  or_path, handle, forbid, frame_ok, done, one_of, end_frames, decoded,
}

abbrev pub pads : ℕ → List ℕ → List ℕ
pads zero bs = bs
pads (suc n) bs = frm_pad ∷ pads n bs

skip_pad-pads :
    (n t b : ℕ) (bs : List ℕ)
    → (t == frm_pad) ≡ false
    → skip_pad (pads n (t ∷ b ∷ bs)) ≡ some (t, b ∷ bs)
unfolding skip_pad
skip_pad-pads zero t b bs h = ground arith
skip_pad-pads (suc n) t b bs h = skip_pad-pads n t b bs h

next_frame-pads :
    (m : PktMeta) (n t b : ℕ) (bs : List ℕ)
    → is_allowed m frm_pad ≡ true
    → (t == frm_pad) ≡ false
    → next_frame m frm_pad (pads n (t ∷ b ∷ bs)) ≡ handle (track_frame m frm_pad) t (b ∷ bs)
unfolding next_frame
next_frame-pads m n t b bs a h = rw (a, skip_pad-pads n t b bs h) refl

next_frame_forbids :
    (m : PktMeta) (t : ℕ) (bs : List ℕ)
    → is_allowed m t ≡ false
    → ltb t frm_max ≡ true
    → next_frame m t bs ≡ forbid t
unfolding next_frame
next_frame_forbids m t bs a h = rw (a, h) refl

is_allowed-pad : (m : PktMeta) → is_allowed m frm_pad ≡ true
unfolding is_allowed
is_allowed-pad m = ok_for (epoch_for_pkt_type m.hdr_type)
  where
    ok_for : (ep : Epoch) → one_of frm_pad (frame_ok ep) ≡ true
    ok_for ep_init = refl
    ok_for ep_0rtt = refl
    ok_for ep_hshk = refl
    ok_for ep_data = refl

drop_all : (n : ℕ) (xs : List ℕ) → length xs ≡ n → drop n xs ≡ []
drop_all zero [] h = refl
drop_all zero (x ∷ xs) h = ground arith
drop_all (suc n) [] h = refl
drop_all (suc n) (x ∷ xs) h = drop_all n xs (omega arith)

decb_all : (xs : List ℕ) → length xs ≡ path_chlg_len → decb path_chlg_len xs ≡ some (xs, [])
unfolding decb
decb_all xs h = ground (arith, take_all xs 8 h, drop_all 8 xs h)

tracked_pcl : (m : PktMeta) → (track_frame m frm_pcl).frms frm_pcl ≡ true
unfolding track_frame
tracked_pcl m = refl

-- The connection after the end of the loop.
abbrev tracked_conn : Conn → PktMeta → Conn
tracked_conn c m =
    let pn = get_pn c m.pn in
    set_pn c m.pn (record pn {
      rx_frames = λ i. pn.rx_frames i || (i == frm_pcl || (i == frm_pad || m.frms i));
    })

end_frames-pcl :
    (c : Conn) (m : PktMeta)
    → end_frames c (track_frame (track_frame m frm_pad) frm_pcl)
      ≡ decoded (tracked_conn c m) (track_frame (track_frame m frm_pad) frm_pcl)
unfolding end_frames track_frame
end_frames-pcl c m =
    let e =
      any_frm_hit frm_max frm_pcl (track_frame (track_frame m frm_pad) frm_pcl).frms (omega arith)
        refl in
    rw (end_frames, e) refl

set_pn-path_resp_out :
    (c : Conn) (p : PnType) (pn : PnSpace) → (set_pn c p pn).path_resp_out ≡ c.path_resp_out
set_pn-path_resp_out c pn_init pn = refl
set_pn-path_resp_out c pn_hshk pn = refl
set_pn-path_resp_out c pn_data pn = refl

set_pn-tx_path_resp :
    (c : Conn) (p : PnType) (pn : PnSpace) → (set_pn c p pn).tx_path_resp ≡ c.tx_path_resp
set_pn-tx_path_resp c pn_init pn = refl
set_pn-tx_path_resp c pn_hshk pn = refl
set_pn-tx_path_resp c pn_data pn = refl

get_pn-set_pn : (c : Conn) (p : PnType) (pn : PnSpace) → get_pn (set_pn c p pn) p ≡ pn
get_pn-set_pn c pn_init pn = refl
get_pn-set_pn c pn_hshk pn = refl
get_pn-set_pn c pn_data pn = refl

module _ (ops : SplayOps) (w_max default_ups now now2 past : ℕ) (srt_new can_dup : List ℕ → Bool)
    (env : AckEnv) where
  dec_frame-pcl :
      (c : Conn) (m : PktMeta) (ok : Bool) (bs : List ℕ)
      → length bs ≡ path_chlg_len
      → dec_frame ops w_max default_ups now now2 past srt_new can_dup env c m ok frm_pcl bs
        ≡ done (challenged c bs) m true frm_pcl []
  unfolding dec_frame limit_frame or_path path_frame dec_path_challenge_frame
  dec_frame-pcl c m ok bs h = rw (decb_all bs h) refl

  -- A PATH_CHALLENGE in a packet that may not hold one, such as an Initial, ends the connection; the
  -- same frame behind one or more PADDING frames is handled, and the packet accepted: its bytes are
  -- scheduled to be sent back in a PATH_RESPONSE, and the frame is noted in the packet and in its
  -- packet number space.
  pub padding_hides :
      (fuel n : ℕ) (c : Conn) (m : PktMeta) (ok : Bool) (bs : List ℕ)
      → is_allowed m frm_pcl ≡ false
      → length bs ≡ path_chlg_len
      → (dec_frames ops w_max default_ups now now2 past srt_new can_dup env
            (suc fuel)
            c
            m
            ok
            (frm_pcl ∷ bs)
          ≡ some (refused (err_close c err_pv frm_pcl)))
        × ((d : Conn) × (m' : PktMeta) × (dec_frames ops w_max default_ups now now2 past srt_new
                can_dup env
                (suc fuel)
                c
                m
                ok
                (pads (suc n) (frm_pcl ∷ bs))
              ≡ some (decoded d m'))
            × (d.path_resp_out ≡ bs)
            × (d.tx_path_resp ≡ true)
            × (m'.frms frm_pcl ≡ true)
            × ((get_pn d m.pn).rx_frames frm_pcl ≡ true))
  unfolding dec_frames
  padding_hides fuel n c m ok (b ∷ bs) a h = (
    rw (dec_frames, next_frame_forbids m frm_pcl (b ∷ bs) a refl) refl,
    (
      tracked_conn (challenged c (b ∷ bs)) m,
      track_frame (track_frame m frm_pad) frm_pcl,
      rw
          (
            dec_frames,
            next_frame-pads m n frm_pcl b bs (is_allowed-pad m) refl,
            dec_frame-pcl c (track_frame m frm_pad) ok (b ∷ bs) h,
          )
          (ap some (end_frames-pcl (challenged c (b ∷ bs)) m)),
      set_pn-path_resp_out (challenged c (b ∷ bs)) m.pn _,
      set_pn-tx_path_resp (challenged c (b ∷ bs)) m.pn _,
      tracked_pcl (track_frame m frm_pad),
      ap (λ (pn : PnSpace). pn.rx_frames frm_pcl) (get_pn-set_pn (challenged c (b ∷ bs)) m.pn _)
          ∙ ground arith,
    ),
  )
  padding_hides fuel n c m ok [] a h = ground arith
