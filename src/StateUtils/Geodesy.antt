-- ===== src/StateUtils/Geodesy.antt =====
-- Conversions between GPS, ENU and body coordinates.
use Prim.Native.String.{String}
use dankong.Prelude.{ℕ, Bool, Option, none, some}
use dankong.Prelude.Double.{Double, ◌+f◌, ◌-f◌, ◌*f◌}
use dankong.Prelude.Vec.{Vec3, Vec4, vec3, vec4, ◌+v◌}
use dankong.StateUtils.Angles.{norm_yaw}

-- GeographicLib::UTMUPS: `forward lat lon setzone` is the zone, the hemisphere and the projected
-- point, and `none` where the library throws; `error` is the text of its exception.
pub record Utm (F : Type 0) : Type 0 where
  pub error : String
  pub forward : F → F → Option ℕ → Option (ℕ × Bool × F × F)
  pub reverse : ℕ → Bool → F → F → Option (F × F)

infixl 5 ◌>>=◌
abbrev pub ◌>>=◌ {ℓ κ} : {A : Type ℓ} {B : Type κ} → Option A → (A → Option B) → Option B
none >>= f = none
some a >>= f = f a

module _ {F : Type 0} ⦃d : Double F⦄ where
  unfoldable pub get_relevant_enu : Utm F → Vec3 F → Vec3 F → Option (Vec3 F)
  get_relevant_enu utm drone target = do
    (drone_zone, is_north, drone_x, drone_y) ← utm.forward drone.y drone.x none
    (target_zone, target_northp, target_x, target_y) ←
        utm.forward target.y target.x (some drone_zone)
    some (vec3 (target_x -f drone_x) (target_y -f drone_y) (target.z -f drone.z))

  unfoldable pub gps_to_enu : Utm F → Vec3 F → Vec3 F → Vec3 F → Option (Vec3 F)
  unfolding get_relevant_enu
  gps_to_enu utm cur_lon_lat_alt cur_pos_enu lon_lat_alt = do
    diff ← get_relevant_enu utm cur_lon_lat_alt lon_lat_alt
    some (diff +v cur_pos_enu)

  unfoldable pub enu_to_gps : Utm F → Vec3 F → Vec3 F → Vec3 F → Option (Vec3 F)
  enu_to_gps utm drone drone_enu enu = do
    (drone_zone, is_north, drone_x, drone_y) ← utm.forward drone.y drone.x none
    (lat, lon) ←
        utm.reverse drone_zone is_north (drone_x +f enu.x -f drone_enu.x)
          (drone_y +f enu.y -f drone_enu.y)
    some (vec3 lon lat (drone.z +f enu.z -f drone_enu.z))

  unfoldable pub body_to_enu : Vec4 F → Vec4 F → Vec4 F
  body_to_enu target odom =
      let cos_yaw = d.cos odom.w in
      let sin_yaw = d.sin odom.w in
      vec4 (odom.x +f (target.x *f cos_yaw -f target.y *f sin_yaw))
        (odom.y +f (target.x *f sin_yaw +f target.y *f cos_yaw)) (odom.z +f target.z)
        (norm_yaw (odom.w +f target.w))
