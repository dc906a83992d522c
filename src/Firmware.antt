-- ===== src/Firmware.antt =====
-- src/arduino_program/gate_control: the program of the Arduino. It moves the gates, and answers the
-- messages that the server writes to the serial port.
pub mod Float
pub mod Gate
pub mod Library
pub mod Sketch
