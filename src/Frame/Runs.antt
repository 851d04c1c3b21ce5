-- ===== src/Frame/Runs.antt =====
-- Runs of the frames of lib/src/frame.h and frame.c.
use quant.Base.{
  ℕ, ◌≤◌, some, length, ◌≡◌, refl, ◌↔◌, true, false, ◌||◌, List, [], ◌∷◌, arith, ◌==◌, is_some,
}
use quant.Cid.Deref.{deref_cid}
use quant.Cid.Laws.{IsCids}
use quant.Cid.Retire.{keep_from}
use quant.Conn.Packets.{PktMeta}
use quant.Conn.State.{Conn}
use quant.Conn.Sample.{conn, pkt, some_cids, cid_at}
use quant.Frame.Handled.{died}
use quant.Conn.Close.{err_close}
use quant.Frame.Dispatch.{Decoded, refused, decoded, dec_frames, decoded, is_allowed}
use quant.Frame.Hidden.{padding_hides}
use quant.Frame.AckDec.{AckEnv}
use quant.Recovery.Flight.{on_pkt_acked_cc}
use quant.Frame.Ends.{dec_frames_ends}
use quant.Diet.Runs.Rebuild.{rebuild}
use quant.Frame.Paths.{challenged, new_cid, retire_older, take_new_cid}
use quant.Frame.Older.{has_any, retire_older_lem, take_new_cid_dies}
use quant.Frame.Enc.{Enc}
use quant.Frame.{is_ack_eliciting, is_ack_eliciting_iff, Elicits}

-- HANDSHAKE_DONE alone elicits nothing, CONNECTION_CLOSE of the application does.
hshk_done_run : is_ack_eliciting (λ i. i == 0x1e) ≡ false
unfolding is_ack_eliciting
hshk_done_run = refl

app_close_run : is_ack_eliciting (λ i. i == 0x1d) ≡ true
unfolding is_ack_eliciting
app_close_run = refl

is_ack_eliciting_iff_example : (is_ack_eliciting (λ i. i == 0x1e) ≡ true) ↔ Elicits (λ i. i == 0x1e)
is_ack_eliciting_iff_example = is_ack_eliciting_iff (λ i. i == 0x1e)

-- An empty buffer of 100 bytes.
abbrev fresh : Conn → Enc
fresh c = record { writer = record { out = []; room = 100 }; conn = c; pkt = pkt 5 }

-- The packet with one more frame.
abbrev tracked : PktMeta → ℕ → PktMeta
tracked m type = record m { frms = λ i. i == type || m.frms i }

-- A limit of 10000 bytes takes two bytes.
abbrev max_data_sent : Enc
max_data_sent = record {
  writer = record { out = 0x10 ∷ 0x67 ∷ 0x10 ∷ []; room = 97 };
  conn = record conn { tx_max_data = false };
  pkt = tracked (record (pkt 5) { max_data = 10000 }) 0x10;
}

-- One end sends a challenge, the other answers.
abbrev eight : List ℕ
eight = 1 ∷ 2 ∷ 3 ∷ 4 ∷ 5 ∷ 6 ∷ 7 ∷ 8 ∷ []

abbrev prober : Conn
prober = record conn { path_chlg_out = eight; tx_path_chlg = true }

abbrev chlg_sent : Enc
chlg_sent = record {
  writer = record { out = 0x1a ∷ eight; room = 91 };
  conn = prober;
  pkt = tracked (pkt 5) 0x1a;
}

abbrev resp_sent : Enc
resp_sent = record {
  writer = record { out = 0x1b ∷ eight; room = 91 };
  conn = challenged conn eight;
  pkt = tracked (pkt 5) 0x1b;
}

some_cids-IsCids : IsCids some_cids
some_cids-IsCids = record {
  count = refl;
  total = refl;
  act_all = (refl, tt);
  ret_all = tt;
  avl_all = ground arith;
}

-- Connection ID 0 is in use, and there is no other.
retire_older_lem_example :
    is_some (retire_older conn (cid_at 7 0 false) 1) ≡ has_any (keep_from 1 (some_cids.act))
unfolding deref_cid
retire_older_lem_example =
    retire_older_lem conn (cid_at 7 0 false) 1 some_cids-IsCids (tt, tt) refl (omega arith)
      (omega arith)

take_new_cid_dies_example :
    take_new_cid (λ srt. true) conn (cid_at 7 0 false) 1 (new_cid 1 4 (9 ∷ 9 ∷ 9 ∷ 9 ∷ []) []) []
    ≡ died
unfolding deref_cid
take_new_cid_dies_example =
    take_new_cid_dies (λ srt. true) conn (cid_at 7 0 false) 1 (new_cid 1 4 (9 ∷ 9 ∷ 9 ∷ 9 ∷ []) [])
      [] some_cids-IsCids (tt, tt) refl (omega arith, omega arith, omega arith) (omega arith)
      (omega arith, omega arith, omega arith) refl

-- An acknowledged packet leaves the flight and grows the window; the counts of ECN are not looked at.
abbrev ack_env : AckEnv
ack_env = record {
  now3 = 0;
  now4 = 0;
  hshk_done = true;
  on_acked = λ type c m. on_pkt_acked_cc c m;
  on_ecn = λ c ms ect0 ect1 ce. c;
}

-- An Initial packet with a PING, an ACK, padding and a PATH_CHALLENGE behind it.
abbrev payload : List ℕ
payload = 0x01 ∷ 0x02 ∷ 9 ∷ 0 ∷ 0 ∷ 0 ∷ 0x00 ∷ 0x00 ∷ 0x1a ∷ eight

dec_frames_ends_example :
    (d : Decoded) × ((fuel : ℕ)
      → length payload ≤ fuel
      → dec_frames rebuild 1500 1200 0 0 0
          (λ srt. true)
          (λ rest. true)
          ack_env
          fuel
          conn
          (pkt 5)
          false
          payload
        ≡ some d)
dec_frames_ends_example =
    dec_frames_ends rebuild 1500 1200 0 0 0 (λ srt. true) (λ rest. true) ack_env conn (pkt 5) false
      payload

padding_hides_example :
    (dec_frames rebuild 1500 1200 0 0 0
        (λ srt. true)
        (λ rest. true)
        ack_env
        1
        conn
        (pkt 5)
        false
        (0x1a ∷ eight)
      ≡ some (refused (err_close conn 0xa 0x1a)))
    × ((d : Conn) × (m' : PktMeta) × (dec_frames rebuild 1500 1200 0 0 0
            (λ srt. true)
            (λ rest. true)
            ack_env
            1
            conn
            (pkt 5)
            false
            (0x00 ∷ 0x00 ∷ 0x00 ∷ 0x1a ∷ eight)
          ≡ some (decoded d m'))
        × (d.path_resp_out ≡ eight)
        × (d.tx_path_resp ≡ true)
        × (m'.frms 0x1a ≡ true)
        × (d.pns_data.rx_frames 0x1a ≡ true))
unfolding is_allowed
padding_hides_example =
    padding_hides rebuild 1500 1200 0 0 0 (λ srt. true) (λ rest. true) ack_env 0 2 conn (pkt 5)
      false eight refl refl
