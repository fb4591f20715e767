-- ===== src/Server/Decoders.antt =====
-- The decoder plays no part in what the server answers.
use runtt.Shared.{◌≡◌, refl, ap, Bool, true, false, some}
use runtt.Shared.{Result, ok, err, Run, ret, panic, stuck, ◌>>=◌, ◌==◌, ◌||◌}
use runtt.Shared.{if◌then◌else◌}
use runtt.Mcuboot.{Bytes}
use runtt.Cbor.{Cbor, decode_map, get_bytes, get_bool}
use runtt.Shared.Text.{codes}
use runtt.Codec.{Frame, CodecError, parse_frame}
use runtt.Device.{Device, UploadOutcome, SetStateError, set_state, go_silent, continue, complete}
use runtt.Server.{
  Server, dispatch, opt_bool, marked, uploaded, is_for, group_os, os_echo, os_mcumgr_params,
  os_reset, group_img, img_state, img_upload, img_erase, group_peruser, describe,
}
use runtt.Server.Attend.{plain, map_run, plainly}
use runtt.Server.Loop.{withholds, answer_request, respond}

map_run-if :
    {A B : Type 0} (f : A → B) (b : Bool) (x y : Run A) {x' y' : Run B}
    → x' ≡ map_run f x
    → y' ≡ map_run f y
    → (if b then x' else y') ≡ map_run f (if b then x else y)
map_run-if f true x y e e' = e
map_run-if f false x y e e' = e'

module _ (cbor : Cbor) where
  marked-plain :
      (s : Server) (req : Frame) (r : Device × Result SetStateError (Unit {0}))
      → marked cbor (plain s) req r ≡ plainly (marked cbor s req r)
  marked-plain s req (dev, ok _) = refl
  marked-plain s req (dev, err e) = refl

  uploaded-plain :
      (s : Server) (req : Frame) (m : Run (Device × UploadOutcome))
      → (m >>= λ done. ret (uploaded cbor (plain s) req done))
        ≡ map_run plainly (m >>= λ done. ret (uploaded cbor s req done))
  uploaded-plain s req (ret (dev, go_silent)) = refl
  uploaded-plain s req (ret (dev, continue off)) = refl
  uploaded-plain s req (ret (dev, complete off m)) = refl
  uploaded-plain s req panic = refl
  uploaded-plain s req stuck = refl

module _ (sha256 : Bytes → Bytes) (cbor : Cbor) where
  dispatch-plain :
      (s : Server) (req : Frame)
      → dispatch sha256 cbor (plain s) req ≡ map_run plainly (dispatch sha256 cbor s req)
  unfolding dispatch
  dispatch-plain s req = map_run-if plainly (is_for group_os os_echo req) _ _ refl (
      map_run-if plainly (is_for group_os os_mcumgr_params req) _ _ refl (
        map_run-if plainly (is_for group_os os_reset req) _ _ refl (
          map_run-if plainly (is_for group_img img_state req) _ _
            (map_run-if plainly (req.op == 0) _ _ refl (
              ap ret (
                marked-plain cbor s req (
                  set_state s.dev (get_bytes (decode_map cbor req.payload) (codes "hash"))
                    (opt_bool (get_bool (decode_map cbor req.payload) (codes "confirm")))))))
            (map_run-if plainly (is_for group_img img_upload req) _ _ (uploaded-plain cbor s req _)
              (map_run-if plainly (is_for group_img img_erase req) _ _ refl
                (map_run-if plainly (is_for group_peruser describe req) _ _ refl refl))))))

  pub respond-plain :
      (s : Server) (body : Bytes)
      → respond sha256 cbor (plain s) (ok (some body))
        ≡ map_run plainly (respond sha256 cbor s (ok (some body)))
  unfolding respond answer_request
  respond-plain s body = go (parse_frame body)
    where
      go :
          (r : Result CodecError Frame)
          → answer_request sha256 cbor (plain s) r
            ≡ map_run plainly (answer_request sha256 cbor s r)
      go (err e) = refl
      go (ok req) =
          map_run-if plainly (s.silent || withholds s.dev.fault req) _ _ refl (dispatch-plain s req)
