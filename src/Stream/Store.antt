-- ===== src/Stream/Store.antt =====
-- The streams of a connection: look-up, write-back, and the list of streams that need control
-- frames.
use quant.Base.{
  ℕ, ◌+◌, ◌≡◌, refl, inl, inr, Bool, true, false, not, ◌||◌, Option, none, some, List, [], ◌∷◌,
  if◌then◌else◌, arith, Bool-cases,
}
use quant.Conn.Packets.{StrmId, numbered, cry_init, cry_hshk, cry_data}
use quant.Conn.State.{Conn, Strm, StrmState, strm_clsd}
use quant.Stream.Ids.{id_eq, same_bool, is_numbered}

abbrev pub find_strm : List Strm → StrmId → Option Strm
find_strm [] id = none
find_strm (s ∷ ss) id = if id_eq s.id id then some s else find_strm ss id

-- A stream changed in place.
abbrev pub write_strm : List Strm → Strm → List Strm
write_strm [] s = []
write_strm (x ∷ xs) s = (if id_eq x.id s.id then s else x) ∷ write_strm xs s

abbrev pub drop_strm : List Strm → StrmId → List Strm
drop_strm [] id = []
drop_strm (s ∷ ss) id = if id_eq s.id id then drop_strm ss id else s ∷ drop_strm ss id

unfoldable pub get_stream : Conn → StrmId → Option Strm
get_stream c id = find_strm c.strms_by_id id

abbrev pub put_stream : Conn → Strm → Conn
put_stream c s =
    if is_numbered s.id
    then record c { strms_by_id = write_strm c.strms_by_id s }
    else record c { cstrms = write_strm c.cstrms s }

-- The stream that a pointer points to.
abbrev pub deref_strm : Conn → StrmId → Option Strm
deref_strm c id = if is_numbered id then find_strm c.strms_by_id id else find_strm c.cstrms id

abbrev pub is_clsd : StrmState → Bool
is_clsd strm_clsd = true
is_clsd _ = false

unfoldable pub strm_to_state : Strm → StrmState → Strm
strm_to_state s new_state = if is_clsd s.state then s else record s { state = new_state }

abbrev pub needs_ctrl : Strm → Bool
needs_ctrl s = s.tx_max_strm_data || s.blocked

abbrev pub has_id : List StrmId → StrmId → Bool
has_id [] id = false
has_id (x ∷ xs) id = id_eq x id || has_id xs id

-- `sl_remove`: the first one.
abbrev pub remove_id : List StrmId → StrmId → List StrmId
remove_id [] id = []
remove_id (x ∷ xs) id = if id_eq x id then xs else x ∷ remove_id xs id

-- The stream and its connection, changed together.
unfoldable pub need_ctrl_update : Conn → Strm → Conn × Strm
need_ctrl_update c s = if same_bool (needs_ctrl s) s.in_ctrl then (c, s) else (
  record c { need_ctrl = if s.in_ctrl then remove_id c.need_ctrl s.id else s.id ∷ c.need_ctrl },
  record s { in_ctrl = not s.in_ctrl },
)

-- How often the list names the stream.
abbrev pub count_id : List StrmId → StrmId → ℕ
count_id [] id = 0
count_id (x ∷ xs) id = (if id_eq x id then 1 else 0) + count_id xs id

-- The list names the stream once if its mark is set, and not at all if not.
abbrev pub IsMarked : Conn → Strm → Type 0
IsMarked c s = count_id c.need_ctrl s.id ≡ (if s.in_ctrl then 1 else 0)

pub id_eq_refl : (id : StrmId) → id_eq id id ≡ true
id_eq_refl cry_init = refl
id_eq_refl cry_hshk = refl
id_eq_refl cry_data = refl
id_eq_refl (numbered n) = ground arith

pub count-remove_id :
    (xs : List StrmId) (id : StrmId) → count_id xs id ≡ 1 → count_id (remove_id xs id) id ≡ 0
count-remove_id [] id h = ground arith
count-remove_id (x ∷ xs) id h = elim (Bool-cases (id_eq x id)) [
  | inl e ↦ ground arith
  | inr e ↦ (let r = count-remove_id xs id (ground arith) in ground arith)
]

-- Where the list of streams that need control frames names a stream once or, by its mark, not at
-- all, the stream is on it, once, exactly if it needs a control frame after the update.
pub need_ctrl_update_lem :
    (c : Conn) (s : Strm)
    → IsMarked c s
    → IsMarked (need_ctrl_update c s).0 (need_ctrl_update c s).1
      × ((need_ctrl_update c s).1.in_ctrl ≡ needs_ctrl s)
unfolding need_ctrl_update
need_ctrl_update_lem c s h =
    let e = id_eq_refl s.id in let r = count-remove_id c.need_ctrl s.id in ground arith
