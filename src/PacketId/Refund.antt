-- ===== src/PacketId/Refund.antt =====
-- allocate and release, one after the other.
use async_mqtt.Base.{
  ℕ, Bool, true, false, not, ◌&&◌, ◌||◌, ◌≡◌, ◌≢◌, ◌∙◌, [], ◌==◌, if◌then◌else◌, List, arith,
}
use async_mqtt.PacketId.{Interval, release, is_free, allocate}
use async_mqtt.PacketId.Invariant.{IsValid}
use async_mqtt.PacketId.Allocate.{allocate-is_free}
use async_mqtt.PacketId.Release.{release-is_free}

-- What comes back to the allocator.
pub refund :
    (x : ℕ) (d : Bool) (is : List Interval)
    → IsValid is
    → is ≢ []
    → let (pid, js) = allocate is in
      is_free x (if d then release pid js else js) ≡ (is_free x is && (d || not (x == pid)))
refund x false is v ne = let (k, p, q, f, e) = allocate-is_free x is v ne in e ∙ ground arith
refund x true is v ne =
    let (k, p, q, f, e) = allocate-is_free x is v ne in
    let own = (allocate-is_free (allocate is).0 is v ne).4 in
    let back = (release-is_free (allocate is).0 x (allocate is).1 k p q (ground (arith, own))).1 in
    ground (arith, back, e, f)
