-- ===== src/Connect/Reading.antt =====
-- What the connect operation makes of a fixed header, in the protocol of its phase.
use async_mqtt.Base.{
  arith, length, ◌⊎◌, subst, ap, by_test, ◌&&◌, ◌*◌, ◌/◌, ℕ, Bool, true, false, not, ◌==◌, ◌≡◌,
  refl, List, [], ◌∷◌, Option, if◌then◌else◌,
}
use async_mqtt.Codec.Library.{Boost}
use async_mqtt.Codec.Cursor.{Res, ok, fail, fault}
use async_mqtt.Codec.Varint.{varint_}
use async_mqtt.Codec.Messages.{Will}
use async_mqtt.Context.{Credentials}
use async_mqtt.Replies.{try_again}
use async_mqtt.Errors.{io}
use async_mqtt.Connect.{
  Answer, Negotiated, Next, do_shutdown, unknown, on_read_packet, async_read, varlen_read,
  fixed_header_of, handle_fixed_header,
}
use async_mqtt.Connect.Protocol.{
  Phase, awaiting, IsHeard, IsHeader, Matches, Leads, one, lost, guarded, reads_rest,
}
use async_mqtt.Connect.Handlers.{shuts}

module _ (lib : Boost) (tls ws : Bool) (creds : Credentials) (will_msg : Option Will)
    (keep_alive : ℕ) (auth_method : List ℕ) where
  abbrev Goes : Answer → Phase → Next → Type 0
  Goes = Leads lib tls ws creds will_msg keep_alive auth_method

  ready : (x : Answer) (s : Negotiated) → IsHeard x → Goes x awaiting (do_shutdown (io try_again) s)
  ready x s h =
      shuts lib tls ws creds will_msg keep_alive auth_method x awaiting (io try_again) s h.0 refl
        refl

  -- The read of the rest, whether or not it fits.
  rest-Leads :
      (x : Answer) (outside : Bool) (size code varlen count : ℕ) (front : List ℕ) (s : Negotiated)
      → IsHeard x
      → IsHeader x.bytes code varlen front
      → Goes x awaiting (
        (if outside then unknown else on_read_packet size code varlen front),
        s,
        async_read size (length x.bytes) count ∷ [],
      )
  unfolding Matches
  rest-Leads x true size code varlen count front s h k =
      one lib tls ws creds will_msg keep_alive auth_method
        (reads_rest x size count code varlen front h k) (λ e. ground arith)
  rest-Leads x false size code varlen count front s h k =
      one lib tls ws creds will_msg keep_alive auth_method
        (reads_rest x size count code varlen front h k)
        (record { header = x.bytes; is_headed = refl; is_header = k })

  varlen-Leads :
      (x : Answer) (size code : ℕ) (r : Res ℕ) (s : Negotiated)
      → IsHeard x
      → ((varlen : ℕ) (front : List ℕ) → r ≡ ok varlen front → IsHeader x.bytes code varlen front)
      → Goes x awaiting (
          varlen_read lib tls ws creds will_msg keep_alive auth_method size
            (length x.bytes)
            code
            r
            s)
  varlen-Leads x size code (ok varlen front) s h k =
      rest-Leads x _ _ code varlen _ front s h (k varlen front refl)
  varlen-Leads x size code fail s h k = ready x s h
  varlen-Leads x size code fault s h k =
      lost lib tls ws creds will_msg keep_alive auth_method x awaiting s (λ e. ground arith)

  known_code :
      (code : ℕ)
      → (not (code == 0xF0) && not (code == 0x20)) ≡ false
      → (code ≡ 0x20) ⊎ (code ≡ 0xF0)
  known_code code h = ground (arith, h)

  header-Leads :
      (x : Answer) (size : ℕ) (bytes : List ℕ) (s : Negotiated)
      → IsHeard x
      → x.bytes ≡ bytes
      → Goes x awaiting
          (fixed_header_of lib tls ws creds will_msg keep_alive auth_method size bytes s)
  unfolding fixed_header_of
  header-Leads x size [] s h e =
      lost lib tls ws creds will_msg keep_alive auth_method x awaiting s (λ e. ground arith)
  header-Leads x size (b ∷ behind) s h e =
      by_test (Goes x awaiting) (not (b / 16 * 16 == 0xF0) && not (b / 16 * 16 == 0x20)) _ _
        (λ k. ready x s h)
        (λ k.
          subst
            (λ n. Goes x awaiting (
              varlen_read lib tls ws creds will_msg keep_alive auth_method size n (b / 16 * 16)
                (varint_ 0 behind) s))
            (ap length e)
            (varlen-Leads x size (b / 16 * 16) (varint_ 0 behind) s h (λ varlen front r. record {
              control_byte = b;
              behind = behind;
              begins = e;
              is_code = refl;
              is_known = known_code _ k;
              is_length = r;
            })))

  pub fixed_header-Leads :
      (x : Answer) (size : ℕ) (s : Negotiated)
      → Goes x awaiting (
          handle_fixed_header lib tls ws creds will_msg keep_alive auth_method x.cancelled x.ec
            x.bytes size s)
  unfolding handle_fixed_header
  fixed_header-Leads x size s =
      guarded lib tls ws creds will_msg keep_alive auth_method x awaiting s _ _ refl
        (λ n f.
          shuts lib tls ws creds will_msg keep_alive auth_method x awaiting (io x.ec) s n refl f)
        (λ h. header-Leads x size x.bytes s h refl)
