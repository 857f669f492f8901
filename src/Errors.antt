-- ===== src/Errors.antt =====
-- Sources/IperfCLib/iperf_api.h: the error numbers (`IE...`) that the exchange of parameters and of
-- results and the control connection set.

pub data Error : Type 0 where
  ie_none : Error
  ie_omit : Error
  ie_affinity : Error
  ie_duration : Error
  ie_num_streams : Error
  ie_block_size : Error
  ie_udp_block_size : Error
  ie_buf_size : Error
  ie_mss : Error
  ie_burst : Error
  ie_bad_tos : Error
  ie_no_sendfile : Error
  ie_udp_file_transfer : Error
  ie_max_server_test_duration_exceeded : Error
  ie_total_rate : Error
  ie_send_params : Error
  ie_recv_params : Error
  ie_protocol : Error
  ie_send_message : Error
  ie_recv_message : Error
  ie_ctrl_read : Error
  ie_ctrl_close : Error
  ie_message : Error
  ie_access_denied : Error
  ie_server_term : Error
  ie_client_term : Error
  ie_send_results : Error
  ie_recv_results : Error
  ie_stream_id : Error
  ie_auth_test : Error
  ie_stream_listen : Error
  ie_package_results : Error
  ie_foreign : Error
