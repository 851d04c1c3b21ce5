-- ===== src/Stream/Life.antt =====
-- A stream from `new_stream` to `free_stream` of lib/src/stream.c.
use quant.Base.{
  subst, ap, refl, inl, inr, [], Bool-cases, ℕ, ◌+◌, ◌/◌, ◌≡◌, false, not, Option, none, some, List,
  ◌∷◌, is_some, if◌then◌else◌, IsU64, max, arith,
}
use quant.Diet.Tree.{SplayOps, IsSplay}
use quant.Diet.Ops.{diet_insert}
use quant.Diet.Adding.{IsWf}
use quant.Diet.Insert.{Inserted, diet_insert-Inserted}
use quant.Conn.Packets.{StrmId, numbered}
use quant.Conn.State.{Conn, Strm, strm_open, strm_idle}
use quant.Stream.Ids.{is_uni, is_srv_ini, is_numbered, same_bool, id_eq}
use quant.Stream.Store.{
  get_stream, find_strm, drop_strm, strm_to_state, remove_id, count_id, IsMarked, count-remove_id,
}
use quant.Stream.Fc.{apply_stream_limits}
use quant.Stream.IdFc.{do_stream_id_fc}

-- `calloc`, and the fields set at once.
abbrev pub blank_strm : StrmId → Strm
blank_strm id = record {
  id = id;
  out_data = 0;
  out_data_max = 0;
  in_data_max = 0;
  in_data = 0;
  in_data_off = 0;
  in_segs = [];
  in_ooo = [];
  lost_cnt = 0;
  state = strm_idle;
  in_ctrl = false;
  tx_max_strm_data = false;
  blocked = false;
}

-- The counts of the streams that this end opened.
unfoldable pub count_local : Conn → StrmId → ℕ → Conn
count_local c id cnt =
    if is_uni id
    then record c { cnt_uni = max cnt c.cnt_uni; next_sid_uni = c.next_sid_uni + 4 }
    else record c { cnt_bidi = max cnt c.cnt_bidi; next_sid_bidi = c.next_sid_bidi + 4 }

abbrev pub strm_cnt : StrmId → ℕ
strm_cnt (numbered sid) = sid / 4 + 1
strm_cnt _ = 0

-- `none` is the failed assertion that there was no stream with this number.
unfoldable pub new_stream : Conn → StrmId → Option (Conn × Strm)
unfolding strm_to_state get_stream apply_stream_limits count_local do_stream_id_fc
new_stream c id =
    let s = strm_to_state (blank_strm id) strm_open in
    if not (is_numbered id)
    then some (record c { cstrms = s ∷ drop_strm c.cstrms id }, s)
    else if is_some (get_stream c id)
    then none
    else (let (c1, s1) = apply_stream_limits c s in
        let is_local = not (same_bool (is_srv_ini id) c.is_clnt) in
        let c2 = record c1 { strms_by_id = s1 ∷ c1.strms_by_id } in
        let c3 = if is_local then count_local c2 id (strm_cnt id) else c2 in
        some (do_stream_id_fc c3 (strm_cnt id) (not (is_uni id)) is_local, s1))

-- `sl_remove` from the list of streams that need control frames.
abbrev pub unlist : Conn → Strm → Conn
unlist c s = record c { need_ctrl = if s.in_ctrl then remove_id c.need_ctrl s.id else c.need_ctrl }

module _ (ops : SplayOps) where
  -- `none` is the failed assertion that the stream is there. The buffers that are freed are not
  -- modelled.
  unfoldable pub free_stream : Conn → Strm → Option Conn
  free_stream c s = elim s.id [
    | numbered sid ↦
        (if is_some (find_strm c.strms_by_id (numbered sid))
          then some (
              unlist
                (record c {
                  clsd_strms = (diet_insert ops c.clsd_strms sid 0).0;
                  strms_by_id = drop_strm c.strms_by_id (numbered sid);
                })
                s)
          else none)
    | cry ↦ some (unlist (record c { cstrms = drop_strm c.cstrms cry }) s)
  ]

gone : (ss : List Strm) (n : ℕ) → find_strm (drop_strm ss (numbered n)) (numbered n) ≡ none
gone [] n = refl
gone (s ∷ ss) n = elim (Bool-cases (id_eq s.id (numbered n))) [
  | inl e ↦ rw e (gone ss n)
  | inr e ↦ rw (e, e) (gone ss n)
]

module _ (ops : SplayOps) (laws : IsSplay ops) where
  -- Freeing a stream that is there, with a 64-bit number, works, where the closed numbers are a
  -- well-formed diet and the stream is on the list of those that need control frames once or, by
  -- its mark, not at all: it is no longer found, its number is among the closed ones, which gain
  -- no other, and it is not on that list.
  pub free_stream_lem :
      (c : Conn) (s old : Strm) (sid : ℕ)
      → s.id ≡ numbered sid
      → IsU64 sid
      → IsWf c.clsd_strms
      → IsMarked c s
      → get_stream c (numbered sid) ≡ some old
      → (c' : Conn) × (free_stream ops c s ≡ some c')
        × (get_stream c' (numbered sid) ≡ none)
        × Inserted sid c.clsd_strms c'.clsd_strms
        × (count_id c'.need_ctrl (numbered sid) ≡ 0)
  unfolding free_stream get_stream
  free_stream_lem c s old sid e u w m g = (
    unlist
        (record c {
          clsd_strms = (diet_insert ops c.clsd_strms sid 0).0;
          strms_by_id = drop_strm c.strms_by_id (numbered sid);
        })
        s,
    rw (free_stream, e, g)
        (ap
          (λ i. some (record c {
            clsd_strms = (diet_insert ops c.clsd_strms sid 0).0;
            strms_by_id = drop_strm c.strms_by_id (numbered sid);
            need_ctrl = if s.in_ctrl then remove_id c.need_ctrl i else c.need_ctrl;
          }))
          e),
    gone c.strms_by_id sid,
    diet_insert-Inserted ops laws c.clsd_strms sid 0 w u,
    unlisted,
  )
    where
      unlisted :
          count_id (if s.in_ctrl then remove_id c.need_ctrl s.id else c.need_ctrl) (numbered sid)
          ≡ 0
      unlisted =
          let r = count-remove_id c.need_ctrl s.id in
          subst
            (λ i. count_id (if s.in_ctrl then remove_id c.need_ctrl s.id else c.need_ctrl) i ≡ 0) e
            (ground arith)
