-- ===== src/Render.antt =====
-- The jobs and results of border/render/job.py. A decimal setting is a number of units of 10^-8.
pub mod Market
mod Tests
use Prim.Native.String.{◌++◌}
use border.Prelude.{ℕ, ◌*◌, String, Option, leb, if◌then◌else◌}
use border.Prelude.Int.{ℤ, pos, max_ℤ}
use border.Prelude.Dict.{Dict}
use border.Runtime.{Runtime, Fields}

pub data RenderType : Type 0 where
  image : RenderType
  video : RenderType
  model3d : RenderType
  upscale : RenderType
  inpaint : RenderType

pub data RenderStatus : Type 0 where
  pending : RenderStatus
  assigned : RenderStatus
  rendering : RenderStatus
  completed : RenderStatus
  failed : RenderStatus

pub record RenderJob : Type 0 where
  pub job_id : String
  pub render_type : RenderType
  pub client_address : String
  pub model_id : String
  pub prompt : String
  pub negative_prompt : String
  pub width : ℕ
  pub height : ℕ
  pub steps : ℕ
  pub cfg_scale : ℤ
  pub seed : ℤ
  pub num_frames : ℕ
  pub fps : ℕ
  pub max_price_bc : ℤ
  pub min_vram_gb : ℕ
  pub extra_params : Fields
  pub status : RenderStatus
  pub worker_address : Option String
  pub created_at : ℕ

pub record RenderResult : Type 0 where
  pub result_id : String
  pub job_id : String
  pub worker_address : String
  pub client_address : String
  pub model_id : String
  pub render_type : RenderType
  pub frames_rendered : ℕ
  pub width : ℕ
  pub height : ℕ
  pub output_hash : String
  pub output_url : String
  pub render_time_s : ℕ
  pub price_bc : ℤ
  pub timestamp : ℕ
  pub worker_signature : Option String

-- BC_PER_IMAGE_1024 and BC_PER_IMAGE_512
abbrev pub image_price : (width height : ℕ) → ℕ
image_price width height = if leb (1024 * 1024) (width * height) then 200_000 else 50_000

-- BC_PER_VIDEO_FRAME is 0.0003 and BC_PER_3D_FRAME is 0.001.
unfoldable pub expected_cost_bc : RenderJob → ℕ
expected_cost_bc j = elim j.render_type [
  | RenderType.image ↦ image_price j.width j.height
  | RenderType.video ↦ j.num_frames * 30_000
  | RenderType.model3d ↦ j.num_frames * 100_000
  | _ ↦ 50_000
]

-- Whole units, so that the rounding to 8 places changes nothing.
unfoldable pub reward_bc : RenderResult → ℤ
reward_bc r =
    max_ℤ
      (pos (elim r.render_type [
        | RenderType.video ↦ r.frames_rendered * 30_000
        | RenderType.model3d ↦ r.frames_rendered * 100_000
        | _ ↦ image_price r.width r.height
      ]))
      r.price_bc

unfoldable pub hash : Runtime → RenderResult → String
hash rt r = rt.hex (
    rt.sha256 (
      rt.encode
        (r.result_id ++ ":" ++ r.job_id ++ ":" ++ r.worker_address ++ ":" ++ r.output_hash)))
