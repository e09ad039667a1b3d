-- ===== src/Prelude/Vec.antt =====
-- Eigen::Vector2d, Eigen::Vector3d and Eigen::Vector4d.
use dankong.Prelude.Tests.{if◌then◌else◌}
use dankong.Prelude.Double.{Double, ◌+f◌, ◌-f◌, ◌*f◌, ◌/f◌, ◌<f◌, nought}

pub record Vec2 (F : Type 0) : Type 0 where
  pub x : F
  pub y : F

pub record Vec3 (F : Type 0) : Type 0 where
  pub x : F
  pub y : F
  pub z : F

pub record Vec4 (F : Type 0) : Type 0 where
  pub x : F
  pub y : F
  pub z : F
  pub w : F

module _ {F : Type 0} where
  abbrev pub vec2 : F → F → Vec2 F
  vec2 a b = record { x = a; y = b }

  abbrev pub vec3 : F → F → F → Vec3 F
  vec3 a b c = record { x = a; y = b; z = c }

  abbrev pub vec4 : F → F → F → F → Vec4 F
  vec4 a b c e = record { x = a; y = b; z = c; w = e }

module _ {F : Type 0} ⦃d : Double F⦄ where
  abbrev pub zero3 : Vec3 F
  zero3 = vec3 nought nought nought

  abbrev pub zero4 : Vec4 F
  zero4 = vec4 nought nought nought nought

  infixl 65 ◌-v◌ ◌+v◌
  abbrev pub ◌-v◌ : Vec3 F → Vec3 F → Vec3 F
  a -v b = vec3 (a.x -f b.x) (a.y -f b.y) (a.z -f b.z)

  abbrev pub ◌+v◌ : Vec3 F → Vec3 F → Vec3 F
  a +v b = vec3 (a.x +f b.x) (a.y +f b.y) (a.z +f b.z)

  abbrev pub scale : F → Vec3 F → Vec3 F
  scale k a = vec3 (k *f a.x) (k *f a.y) (k *f a.z)

  -- `v.norm()` and `v.head<2>().norm()`.
  abbrev pub norm : Vec3 F → F
  norm a = d.sqrt (a.x *f a.x +f a.y *f a.y +f a.z *f a.z)

  abbrev pub norm_xy : Vec3 F → F
  norm_xy a = d.sqrt (a.x *f a.x +f a.y *f a.y)

  infixl 65 ◌-v2◌ ◌+v2◌
  infixl 70 ◌*v2◌
  abbrev pub ◌-v2◌ : Vec2 F → Vec2 F → Vec2 F
  a -v2 b = vec2 (a.x -f b.x) (a.y -f b.y)

  abbrev pub ◌+v2◌ : Vec2 F → Vec2 F → Vec2 F
  a +v2 b = vec2 (a.x +f b.x) (a.y +f b.y)

  abbrev pub ◌*v2◌ : Vec2 F → F → Vec2 F
  a *v2 k = vec2 (a.x *f k) (a.y *f k)

  abbrev pub zero2 : Vec2 F
  zero2 = vec2 nought nought

  abbrev pub norm2 : Vec2 F → F
  norm2 a = d.sqrt (a.x *f a.x +f a.y *f a.y)

  -- `v.normalized()`: a vector of norm 0 is returned as it is.
  abbrev pub normalized : Vec2 F → Vec2 F
  normalized a =
      if nought <f (a.x *f a.x +f a.y *f a.y) then vec2 (a.x /f norm2 a) (a.y /f norm2 a) else a

  abbrev pub head2 : Vec3 F → Vec2 F
  head2 a = vec2 a.x a.y
