-- ===== src/Worker/Agreement/StatusData.antt =====
-- The status of XR00, decoded in both ways.
use urg_node.Prelude.{ℕ, ◌+◌, ◌%◌, ◌^◌, ◌<◌, ◌≡◌, refl, arith, Option, none, some, ◌>>=◌, length}
use urg_node.Codec.Bytes.{Bytes, IsBytes}
use urg_node.Codec.Field.{boolean, u16, u32, u64}
use urg_node.Protocol.Layout.{offset_of}
use urg_node.Protocol.Status.{StatusData, status_data_layout, status_data_at}
use urg_node.Worker.StatusData.{decode_status_data, decode_status_data_at}
use urg_node.Worker.Agreement.Members.{member_at}

-- The area number counted from 1, which only the decoding of the struct does.
abbrev pub count_area_from_1 : StatusData → StatusData
count_area_from_1 d = record d { area_number = (d.area_number + 1) % 2 ^ 16 }

count_area-bind :
    {A : Type 0} (o : Option A) (k k' : A → Option StatusData)
    → ((a : A) → (k a >>= λ d. some (count_area_from_1 d)) ≡ k' a)
    → ((o >>= k) >>= λ d. some (count_area_from_1 d)) ≡ (o >>= k')
count_area-bind none k k' h = refl
count_area-bind (some a) k k' h = h a

step :
    {A : Type 0} (m m' : Option A) (k k' : A → Option StatusData)
    → m ≡ m'
    → ((a : A) → (k a >>= λ d. some (count_area_from_1 d)) ≡ k' a)
    → ((m >>= k) >>= λ d. some (count_area_from_1 d)) ≡ (m' >>= k')
step m m' k k' e h = rw e (count_area-bind m' k k' h)

-- For the status that lies in a buffer of bytes and ends before the buffer does, the decoding of the struct
-- gives what the decoding from the text gives, with 1 added to the area number.
pub decode_status_data_at-struct :
    (bs : Bytes) (base : ℕ)
    → IsBytes bs
    → base + 88 < length bs
    → (decode_status_data_at base bs (status_data_at bs base) >>= λ d. some (count_area_from_1 d))
      ≡ decode_status_data (status_data_at bs base)
unfolding decode_status_data_at decode_status_data status_data_at
decode_status_data_at-struct bs base h fits =
    step _ _ _ _ (member_at u16 bs base (offset_of status_data_layout 1) h (omega arith))
      (λ area_number.
        step _ _ _ _ (member_at u32 bs base (offset_of status_data_layout 16) h (omega arith))
          (λ encoder_speed.
            step _ _ _ _ (member_at u16 bs base (offset_of status_data_layout 3) h (omega arith))
              (λ error_code.
                step _ _ _ _
                  (member_at boolean bs base (offset_of status_data_layout 2) h (omega arith))
                  (λ error_state.
                    step _ _ _ _
                      (member_at boolean bs base (offset_of status_data_layout 17) h (omega arith))
                      (λ laser_state_off.
                        step _ _ _ _
                          (member_at boolean bs base (offset_of status_data_layout 4) h
                            (omega arith))
                          (λ lockout_state.
                            step _ _ _ _
                              (member_at boolean bs base (offset_of status_data_layout 12) h
                                (omega arith))
                              (λ muting_state1.
                                step _ _ _ _
                                  (member_at boolean bs base (offset_of status_data_layout 13) h
                                    (omega arith))
                                  (λ muting_state2.
                                    step _ _ _ _
                                      (member_at boolean bs base (offset_of status_data_layout 0) h
                                        (omega arith))
                                      (λ operating_mode.
                                        step _ _ _ _
                                          (member_at boolean bs base
                                            (offset_of status_data_layout 37) h (omega arith))
                                          (λ optical_window_contaminated.
                                            step _ _ _ _
                                              (member_at boolean bs base
                                                (offset_of status_data_layout 5) h (omega arith))
                                              (λ ossd1_state.
                                                step _ _ _ _
                                                  (member_at boolean bs base
                                                    (offset_of status_data_layout 6) h
                                                    (omega arith))
                                                  (λ ossd2_state.
                                                    step _ _ _ _
                                                      (member_at boolean bs base
                                                        (offset_of status_data_layout 9) h
                                                        (omega arith))
                                                      (λ ossd3_state.
                                                        step _ _ _ _
                                                          (member_at boolean bs base
                                                            (offset_of status_data_layout 10) h
                                                            (omega arith))
                                                          (λ ossd4_state.
                                                            step _ _ _ _
                                                            (member_at boolean bs base
                                                            (offset_of status_data_layout 7) h
                                                            (omega arith))
                                                            (λ warning1_state.
                                                            step _ _ _ _
                                                            (member_at boolean bs base
                                                            (offset_of status_data_layout 8) h
                                                            (omega arith))
                                                            (λ warning2_state.
                                                            step _ _ _ _
                                                            (member_at boolean bs base
                                                            (offset_of status_data_layout 14) h
                                                            (omega arith))
                                                            (λ reset_request1.
                                                            step _ _ _ _
                                                            (member_at boolean bs base
                                                            (offset_of status_data_layout 15) h
                                                            (omega arith))
                                                            (λ reset_request2.
                                                            step _ _ _ _
                                                            (member_at boolean bs base
                                                            (offset_of status_data_layout 30) h
                                                            (omega arith))
                                                            (λ slave1_error_state.
                                                            step _ _ _ _
                                                            (member_at boolean bs base
                                                            (offset_of status_data_layout 33) h
                                                            (omega arith))
                                                            (λ slave1_laser_off_state.
                                                            step _ _ _ _
                                                            (member_at boolean bs base
                                                            (offset_of status_data_layout 18) h
                                                            (omega arith))
                                                            (λ slave1_ossd1_2_state.
                                                            step _ _ _ _
                                                            (member_at boolean bs base
                                                            (offset_of status_data_layout 21) h
                                                            (omega arith))
                                                            (λ slave1_ossd3_4_state.
                                                            step _ _ _ _
                                                            (member_at boolean bs base
                                                            (offset_of status_data_layout 24) h
                                                            (omega arith))
                                                            (λ slave1_warning_1_state.
                                                            step _ _ _ _
                                                            (member_at boolean bs base
                                                            (offset_of status_data_layout 27) h
                                                            (omega arith))
                                                            (λ slave1_warning_2_state.
                                                            step _ _ _ _
                                                            (member_at boolean bs base
                                                            (offset_of status_data_layout 31) h
                                                            (omega arith))
                                                            (λ slave2_error_state.
                                                            step _ _ _ _
                                                            (member_at boolean bs base
                                                            (offset_of status_data_layout 34) h
                                                            (omega arith))
                                                            (λ slave2_laser_off_state.
                                                            step _ _ _ _
                                                            (member_at boolean bs base
                                                            (offset_of status_data_layout 19) h
                                                            (omega arith))
                                                            (λ slave2_ossd1_2_state.
                                                            step _ _ _ _
                                                            (member_at boolean bs base
                                                            (offset_of status_data_layout 22) h
                                                            (omega arith))
                                                            (λ slave2_ossd3_4_state.
                                                            step _ _ _ _
                                                            (member_at boolean bs base
                                                            (offset_of status_data_layout 25) h
                                                            (omega arith))
                                                            (λ slave2_warning_1_state.
                                                            step _ _ _ _
                                                            (member_at boolean bs base
                                                            (offset_of status_data_layout 28) h
                                                            (omega arith))
                                                            (λ slave2_warning_2_state.
                                                            step _ _ _ _
                                                            (member_at boolean bs base
                                                            (offset_of status_data_layout 32) h
                                                            (omega arith))
                                                            (λ slave3_error_state.
                                                            step _ _ _ _
                                                            (member_at boolean bs base
                                                            (offset_of status_data_layout 35) h
                                                            (omega arith))
                                                            (λ slave3_laser_off_state.
                                                            step _ _ _ _
                                                            (member_at boolean bs base
                                                            (offset_of status_data_layout 20) h
                                                            (omega arith))
                                                            (λ slave3_ossd1_2_state.
                                                            step _ _ _ _
                                                            (member_at boolean bs base
                                                            (offset_of status_data_layout 23) h
                                                            (omega arith))
                                                            (λ slave3_ossd3_4_state.
                                                            step _ _ _ _
                                                            (member_at boolean bs base
                                                            (offset_of status_data_layout 26) h
                                                            (omega arith))
                                                            (λ slave3_warning_1_state.
                                                            step _ _ _ _
                                                            (member_at boolean bs base
                                                            (offset_of status_data_layout 29) h
                                                            (omega arith))
                                                            (λ slave3_warning_2_state.
                                                            step _ _ _ _
                                                            (member_at u64 bs base
                                                            (offset_of status_data_layout 36) h
                                                            (omega arith))
                                                            (λ timestamp.
                                                            refl)))))))))))))))))))))))))))))))))))))
