-- ===== src/Server/Replies.antt =====
-- What the server's answer to a request is, and what a request may change.
use runtt.Shared.{◌≡◌, ◌≢◌, refl, true, Option, none, some, Result, ok, err, ret}
use runtt.Shared.{Ensures, Ensures-ret, Ensures-if, Ensures->>=, ◌==◌}
use runtt.Mcuboot.{Bytes}
use runtt.Cbor.{Cbor}
use runtt.Codec.{Frame, response_op, op_read}
use runtt.Device.{Device, UploadOutcome, go_silent, continue, complete, SetStateError}
use runtt.Device.Invariant.{Reach, here, next, uploads, marks, resets, erases}
use runtt.Server.{
  Server, dispatch, marked, uploaded, replied, is_for, group_img, group_os, group_peruser,
  img_upload,
}
use runtt.Server.{os_echo, os_mcumgr_params, os_reset, img_state, img_erase, describe}

-- The header of an answer.
pub record Echoes (req resp : Frame) : Type 0 where
  pub op : resp.op ≡ response_op req
  pub version : resp.version ≡ req.version
  pub flags : resp.flags ≡ 0
  pub group : resp.group ≡ req.group
  pub seq : resp.seq ≡ req.seq
  pub cmd : resp.cmd ≡ req.cmd

-- What there is to say of an answer, and of none.
abbrev pub Answered : Frame → Server → Option Frame → Type 0
Answered req s' (some resp) = Echoes req resp
Answered req s' none = (s'.silent ≡ true) × (is_for group_img img_upload req ≡ true)

pub record Accounted (sha256 : Bytes → Bytes) (req : Frame) (s : Server) (r : Server × Option Frame)
    : Type 0 where
  pub answer : Answered req r.0 r.1
  pub speaks : r.1 ≢ none → r.0.silent ≡ s.silent
  pub board : Reach sha256 s.dev r.0.dev
  pub decoder : r.0.decoder ≡ s.decoder
  pub contract : r.0.contract ≡ s.contract
  pub chatter : r.0.chatter ≡ s.chatter

-- An answer with the board replaced by one that it can reach.
replied-Accounted :
    {sha256 : Bytes → Bytes} (s : Server) (req : Frame) (dev : Device) (out : Bytes)
    → Reach sha256 s.dev dev
    → Accounted sha256 req s (replied req (record s { dev = dev }) out)
replied-Accounted s req dev out r = record {
  answer = record { op = refl; version = refl; flags = refl; group = refl; seq = refl; cmd = refl };
  speaks = λ _. refl;
  board = r;
  decoder = refl;
  contract = refl;
  chatter = refl;
}

marked-Accounted :
    {sha256 : Bytes → Bytes} (cbor : Cbor) (s : Server) (req : Frame)
    (r : Device × Result SetStateError (Unit {0}))
    → Reach sha256 s.dev r.0
    → Accounted sha256 req s (marked cbor s req r)
marked-Accounted cbor s req (dev, ok _) h = replied-Accounted s req dev _ h
marked-Accounted cbor s req (dev, err e) h = replied-Accounted s req dev _ h

uploaded-Accounted :
    {sha256 : Bytes → Bytes} (cbor : Cbor) (s : Server) (req : Frame) (r : Device × UploadOutcome)
    → is_for group_img img_upload req ≡ true
    → Reach sha256 s.dev r.0
    → Accounted sha256 req s (uploaded cbor s req r)
uploaded-Accounted cbor s req (dev, go_silent) hit h = record {
  answer = (refl, hit);
  speaks = λ n. absurd (n refl);
  board = h;
  decoder = refl;
  contract = refl;
  chatter = refl;
}
uploaded-Accounted cbor s req (dev, continue off) hit h = replied-Accounted s req dev _ h
uploaded-Accounted cbor s req (dev, complete off m) hit h = replied-Accounted s req dev _ h

module _ (sha256 : Bytes → Bytes) (cbor : Cbor) where
  Ensures-dispatch :
      (s : Server) (req : Frame) → Ensures (Accounted sha256 req s) (dispatch sha256 cbor s req)
  unfolding dispatch
  Ensures-dispatch s req =
      let P = Accounted sha256 req s in
      let as_is = λ (out : Bytes). Ensures-ret P (replied-Accounted s req s.dev out here) in
      Ensures-if P (is_for group_os os_echo req) (λ _. as_is _)
        λ _.
          Ensures-if P (is_for group_os os_mcumgr_params req) (λ _. as_is _)
            λ _.
              Ensures-if P (is_for group_os os_reset req)
                (λ _. Ensures-ret P (replied-Accounted s req _ _ (next here (resets _))))
                λ _.
                  Ensures-if P (is_for group_img img_state req)
                    (λ _.
                      Ensures-if P (req.op == op_read) (λ _. as_is _)
                        λ _.
                          Ensures-ret P (marked-Accounted cbor s req _ (next here (marks _ _ _))))
                    λ _.
                      Ensures-if P (is_for group_img img_upload req)
                        (λ hit. Ensures->>= P _ _ λ done e. Ensures-ret P (
                          uploaded-Accounted cbor s req done hit
                            (next here (uploads _ _ _ _ done.1 e))))
                        λ _.
                          Ensures-if P (is_for group_img img_erase req)
                            (λ _.
                              Ensures-ret P (replied-Accounted s req _ _ (next here (erases _))))
                            λ _.
                              Ensures-if P (is_for group_peruser describe req) (λ _. as_is _)
                                (λ _. as_is _)

  -- Whatever a request is: an answer to it repeats its version, group, sequence number and command,
  -- with no flags, and with the operation that responds to the request's; only an image upload gets
  -- no answer, and the server is silent from then on, while an answered request leaves its silence as
  -- it was; the board ends in a state that uploads, marks, resets and erasures lead to; and the
  -- decoder, the contract version and the chatter stay as they were.
  pub dispatch-Accounted :
      (s : Server) (req : Frame) (r : Server × Option Frame)
      → dispatch sha256 cbor s req ≡ ret r
      → Accounted sha256 req s r
  dispatch-Accounted s req r e = Ensures-dispatch s req r e
