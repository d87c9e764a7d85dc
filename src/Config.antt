-- ===== src/Config.antt =====
-- Server/config.h: the limits and codes that the model uses.
use progetto.Prelude.{ℕ}

abbrev pub default_port : ℕ
default_port = 8080

abbrev pub max_ai_response_size : ℕ
max_ai_response_size = 2048

abbrev pub thread_pool_min_size : ℕ
thread_pool_min_size = 4

abbrev pub thread_pool_max_size : ℕ
thread_pool_max_size = 32

abbrev pub thread_pool_initial_size : ℕ
thread_pool_initial_size = 8

abbrev pub thread_pool_scale_interval : ℕ
thread_pool_scale_interval = 2

abbrev pub thread_pool_queue_high_water : ℕ
thread_pool_queue_high_water = 10

abbrev pub thread_pool_queue_low_water : ℕ
thread_pool_queue_low_water = 2

abbrev pub msg_ai_dialog_request : ℕ
msg_ai_dialog_request = 1

abbrev pub msg_test_dialog_request : ℕ
msg_test_dialog_request = 2

abbrev pub msg_ai_dialog_response : ℕ
msg_ai_dialog_response = 3

abbrev pub msg_test_dialog_response : ℕ
msg_test_dialog_response = 4

abbrev pub msg_error : ℕ
msg_error = 5

abbrev pub max_message_size : ℕ
max_message_size = 3000

abbrev pub max_personality_size : ℕ
max_personality_size = 512

abbrev pub max_language_size : ℕ
max_language_size = 16

abbrev pub max_conversation_size : ℕ
max_conversation_size = 2048
